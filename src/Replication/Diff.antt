-- ===== src/Replication/Diff.antt =====
-- crates/cordelia-replication/src/lib.rs: what `diff_headers` asks for.
use cordelia_core.Prelude.{
  String, Bool, true, not, Option, none, some, List, [], ◌∷◌, ◌≡◌, ◌≢◌, refl, map, if◌then◌else◌,
  arith, ◌==◌, string_eq, ◌++◌, All, filter, ap, subst, sym,
}
use cordelia_core.Prelude.Dict.{Dict, lookup, insert, lookup-insert}
use cordelia_core.Protocol.Messages.{ItemHeader}
use cordelia_core.Replication.Culture.{checksums_of, needs_fetch, diff_headers}

-- The checksum in the last header of an id.
abbrev pub last_checksum : String → Option String → List ItemHeader → Option String
last_checksum id before [] = before
last_checksum id before (r ∷ rs) =
    last_checksum id (if r.item_id == id then some r.checksum else before) rs

lookup-checksums_of :
    (id : String) (d : Dict String String) (rs : List ItemHeader)
    → lookup id (checksums_of d rs) ≡ last_checksum id (lookup id d) rs
unfolding checksums_of
lookup-checksums_of id d [] = refl
lookup-checksums_of id d (r ∷ rs) =
    rw
      (
        lookup-checksums_of id (insert r.item_id r.checksum d) rs,
        lookup-insert id r.item_id r.checksum d,
      )
      refl

-- Missing here, or here with another checksum.
abbrev pub differs : List ItemHeader → ItemHeader → Bool
differs here r = elim (last_checksum r.item_id none here) [
  | none ↦ true
  | some checksum ↦ not (checksum == r.checksum)
]

needs_fetch_lem :
    (here : List ItemHeader) (r : ItemHeader)
    → needs_fetch (checksums_of [] here) r ≡ differs here r
unfolding lookup
needs_fetch_lem here r = ground (arith, lookup-checksums_of r.item_id [] here)

filter-needs_fetch :
    (here remote : List ItemHeader)
    → filter (needs_fetch (checksums_of [] here)) remote ≡ filter (differs here) remote
filter-needs_fetch here [] = refl
filter-needs_fetch here (r ∷ rs) =
    ground (arith, needs_fetch_lem here r, filter-needs_fetch here rs)

-- The answer names, in the remote order, exactly the remote headers whose id no local header has, or
-- whose checksum is not that of the last local header of the id.
pub diff_headers_lem :
    (here remote : List ItemHeader)
    → diff_headers here remote ≡ map (λ (r : ItemHeader). r.item_id) (filter (differs here) remote)
unfolding diff_headers
diff_headers_lem here remote = rw (filter-needs_fetch here remote) refl

-- No two headers have one id.
abbrev pub IsUnique : List ItemHeader → Type 0
IsUnique [] = Unit
IsUnique (r ∷ rs) = All (λ (q : ItemHeader). q.item_id ≢ r.item_id) rs × IsUnique rs

last_checksum_absent :
    (id : String) (before : Option String) (rs : List ItemHeader)
    → All (λ (q : ItemHeader). q.item_id ≢ id) rs
    → last_checksum id before rs ≡ before
last_checksum_absent id before [] absent = refl
last_checksum_absent id before (r ∷ rs) absent =
    ground (arith, last_checksum_absent id before rs absent.1)

-- A header of a list, after `before`, is the one that counts.
last_checksum_present :
    (r : ItemHeader) (before : Option String) (pre post : List ItemHeader)
    → IsUnique (pre ++ r ∷ post)
    → last_checksum r.item_id before (pre ++ r ∷ post) ≡ some r.checksum
last_checksum_present r before [] post unique =
    ground (arith, last_checksum_absent r.item_id (some r.checksum) post unique.0)
last_checksum_present r before (p ∷ pre) post unique =
    last_checksum_present r (if p.item_id == r.item_id then some p.checksum else before) pre post
      unique.1

append_assoc :
    (pre : List ItemHeader) (r : ItemHeader) (post : List ItemHeader)
    → (pre ++ r ∷ []) ++ post ≡ pre ++ r ∷ post
append_assoc [] r post = refl
append_assoc (p ∷ pre) r post = ap (λ rs. p ∷ rs) (append_assoc pre r post)

none_differs :
    (pre post : List ItemHeader) → IsUnique (pre ++ post) → filter (differs (pre ++ post)) post ≡ []
none_differs pre [] unique = refl
none_differs pre (r ∷ post) unique =
    let same = append_assoc pre r post in
    let rest : filter (differs (pre ++ r ∷ post)) post ≡ [] =
      subst (λ rs. filter (differs rs) post ≡ []) same
        (none_differs (pre ++ r ∷ []) post (subst IsUnique (sym same) unique)) in
    ground (arith, rest, last_checksum_present r none pre post unique)

-- Two peers with the same headers, of which no two have one id, ask each other for nothing.
pub diff_headers_self : (here : List ItemHeader) → IsUnique here → diff_headers here here ≡ []
diff_headers_self here unique = rw (diff_headers_lem here here, none_differs [] here unique) refl
