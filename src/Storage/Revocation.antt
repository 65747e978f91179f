-- ===== src/Storage/Revocation.antt =====
-- crates/cordelia-storage/src/lib.rs: a revoked device stays out.
use mathlib.Core.Option.{some-injective}
use cordelia_core.Prelude.{
  String, Bool, true, false, Option, none, some, List, [], ◌∷◌, ◌==◌, ◌&&◌, string_eq, ◌≡◌, ◌≢◌,
  refl, arith, sym, ◌∙◌, subst, Option-cases, ==-self, Bool-cases, inl, inr, for_each, for_each_inv,
}
use cordelia_core.Prelude.Dict.{
  Dict, lookup, insert, modify, values, lookup-insert, lookup-modify, AllEntries, NodupKeys,
  AllEntries-lookup, AllEntries-insert, AllEntries-modify,
}
use cordelia_core.Storage.Rows.{ok, DeviceRow}
use cordelia_core.Storage.Items.{SqliteStorage, available}
use cordelia_core.Storage.Devices.{
  registered, register_device, can_revoke, revoke_device, is_live, find, get_device_by_token_hash,
  is_device_type,
}

-- The calls that write to the table.
pub data DeviceCall : Type 0 where
  register : DeviceRow → DeviceCall
  revoke : String → String → DeviceCall

unfoldable pub device_call : DeviceCall → SqliteStorage → SqliteStorage
device_call (register device) s = (register_device device s).1
device_call (revoke entity_id device_id) s = (revoke_device entity_id device_id s).1

-- A row under its own id, which is not live if that id is `id`.
abbrev Entry : String → String → DeviceRow → Type 0
Entry id key r = (r.device_id ≡ key) × (key ≡ id → is_live r ≡ false)

abbrev Revoked : String → Dict String DeviceRow → Type 0
Revoked id d = AllEntries (Entry id) d × (lookup id d ≢ none)

-- The device has a row, each row is under its own id, and the device is revoked.
abbrev pub IsRevoked : String → SqliteStorage → Type 0
IsRevoked id s = (d : Dict String DeviceRow) × (s.devices ≡ some d) × Revoked id d

registered-Entry :
    (id clock : String) (device : DeviceRow) (d : Dict String DeviceRow)
    → Revoked id d
    → Entry id device.device_id (registered clock device (lookup device.device_id d))
registered-Entry id clock device d h = elim (Option-cases (lookup device.device_id d)) [
  | inl new ↦ rw new (refl, λ same. absurd (h.1 (subst (λ k. lookup k d ≡ none) same new)))
  | inr (old, there) ↦ rw there (AllEntries-lookup (Entry id) device.device_id old d h.0 there)
]

register-Revoked :
    (id clock : String) (device : DeviceRow) (d : Dict String DeviceRow)
    → Revoked id d
    → Revoked id (insert device.device_id (registered clock device (lookup device.device_id d)) d)
register-Revoked id clock device d h =
    let row = registered clock device (lookup device.device_id d) in
    (
      AllEntries-insert (Entry id) device.device_id row d (registered-Entry id clock device d h)
          h.0,
      λ gone. h.1 (ground (arith, lookup-insert id device.device_id row d)),
    )

revoke-Revoked :
    (id device_id clock : String) (d : Dict String DeviceRow)
    → Revoked id d
    → Revoked id (modify device_id (λ (r : DeviceRow). record r { revoked_at = some clock }) d)
revoke-Revoked id device_id clock d h =
    let f = λ (r : DeviceRow). record r { revoked_at = some clock } in
    (
      AllEntries-modify (Entry id) device_id f d (λ k r e. (e.0, λ same. refl)) h.0,
      λ gone. h.1 (ground (arith, lookup-modify id device_id f d)),
    )

device_call-IsRevoked :
    (id : String) (c : DeviceCall) (s : SqliteStorage)
    → IsRevoked id s
    → IsRevoked id (device_call c s)
unfolding device_call register_device revoke_device
device_call-IsRevoked id (register device) s (d, has, h) = elim (Option-cases (available s)) [
  | inr (e, down) ↦ rw (device_call, register_device, down) (d, has, h)
  | inl up ↦ elim (Bool-cases (is_device_type device.device_type)) [
    | inr bad ↦ rw (device_call, register_device, up, has, bad) (d, has, h)
    | inl good ↦
        rw (device_call, register_device, up, has, good)
          (
            insert device.device_id (registered s.clock device (lookup device.device_id d)) d,
            refl,
            register-Revoked id s.clock device d h,
          )
  ]
]
device_call-IsRevoked id (revoke entity_id device_id) s (d, has, h) =
    elim (Option-cases (available s)) [
      | inr (e, down) ↦ rw (device_call, revoke_device, down) (d, has, h)
      | inl up ↦ elim (Bool-cases (can_revoke entity_id (lookup device_id d))) [
        | inr bad ↦ rw (device_call, revoke_device, up, has, bad) (d, has, h)
        | inl good ↦
            rw (device_call, revoke_device, up, has, good)
              (
                modify device_id (λ (r : DeviceRow). record r { revoked_at = some s.clock }) d,
                refl,
                revoke-Revoked id device_id s.clock d h,
              )
      ]
    ]

-- The rows that a search finds are rows of the table.
find-values :
    (Q : String → DeviceRow → Type 0) (P : DeviceRow → Type 0) (test : DeviceRow → Bool)
    → ((k : String) (r : DeviceRow) → Q k r → test r ≡ true → P r)
    → (d : Dict String DeviceRow) → AllEntries Q d
    → (r : DeviceRow) → find test (values d) ≡ some r
    → P r
find-values Q P test so [] h r e = absurd (ground arith)
find-values Q P test so ((k, row) ∷ d) h r e = elim (Bool-cases (test row)) [
  | inl hit ↦ subst P (some-injective row r (sym (rw hit refl) ∙ e)) (so k row h.0 hit)
  | inr miss ↦ find-values Q P test so d h.1 r (sym (rw miss refl) ∙ e)
]

ok-injective : (a b : Option DeviceRow) → ok a ≡ ok b → a ≡ b
ok-injective a b e = ground arith

abbrev pub IsKeyed : Dict String DeviceRow → Type 0
IsKeyed d = AllEntries (λ (k : String) (r : DeviceRow). r.device_id ≡ k) d

absent-Entry :
    (id : String) (d : Dict String DeviceRow)
    → IsKeyed d
    → lookup id d ≡ none
    → AllEntries (Entry id) d
unfolding lookup
absent-Entry id [] keyed gone = tt
absent-Entry id ((k, r) ∷ d) keyed gone = elim (Bool-cases (k == id)) [
  | inl same ↦ absurd (ground arith)
  | inr differ ↦ (
    (keyed.0, λ same. absurd (ground (arith, ==-self k))),
    absent-Entry id d keyed.1 (sym (rw (lookup, differ) refl) ∙ gone),
  )
]

modify-Entry :
    (id clock : String) (d : Dict String DeviceRow)
    → IsKeyed d
    → NodupKeys d
    → AllEntries (Entry id) (modify id (λ (r : DeviceRow). record r { revoked_at = some clock }) d)
unfolding modify
modify-Entry id clock [] keyed nodup = tt
modify-Entry id clock ((k, r) ∷ d) keyed nodup = elim (Bool-cases (k == id)) [
  | inl same ↦
      let here : k ≡ id = ground arith in
      rw (modify, same)
        (
          (keyed.0, λ e. refl),
          absent-Entry id d keyed.1 (subst (λ j. lookup j d ≡ none) here nodup.0),
        )
  | inr differ ↦
      rw (modify, differ)
        (
          (keyed.0, λ same. absurd (ground (arith, ==-self k))),
          modify-Entry id clock d keyed.1 nodup.1,
        )
]

revocable_there :
    (entity_id : String) (old : Option DeviceRow) → can_revoke entity_id old ≡ true → old ≢ none
revocable_there entity_id none can e = absurd (ground arith)
revocable_there entity_id (some r) can e = absurd (ground arith)

after_revocation :
    (id entity_id : String) (s : SqliteStorage) (d : Dict String DeviceRow)
    → s.devices ≡ some d
    → IsKeyed d
    → NodupKeys d
    → (revoke_device entity_id id s).0 ≡ ok true
    → IsRevoked id (revoke_device entity_id id s).1
unfolding revoke_device
after_revocation id entity_id s d has keyed nodup done = elim (Option-cases (available s)) [
  | inr (e, down) ↦ absurd (ground arith)
  | inl up ↦ elim (Bool-cases (can_revoke entity_id (lookup id d))) [
    | inr bad ↦ absurd (ground arith)
    | inl good ↦
        rw (revoke_device, up, has, good)
          (
            modify id (λ (r : DeviceRow). record r { revoked_at = some s.clock }) d,
            refl,
            (
              modify-Entry id s.clock d keyed nodup,
              λ gone. revocable_there entity_id (lookup id d) good (
                  ground (
                    arith,
                    lookup-modify id id (λ (r : DeviceRow). record r { revoked_at = some s.clock })
                        d,
                    ==-self id,
                  )),
            ),
          )
  ]
]

live-Entry :
    (id hash key : String) (r : DeviceRow)
    → Entry id key r
    → (r.auth_token_hash == hash && is_live r) ≡ true
    → r.device_id ≢ id
live-Entry id hash key r p live same =
    let dead : is_live r ≡ false = p.1 (sym p.0 ∙ same) in absurd (ground arith)

get-device-revoked :
    (id hash : String) (r : DeviceRow) (s : SqliteStorage)
    → IsRevoked id s
    → get_device_by_token_hash hash s ≡ ok (some r)
    → r.device_id ≢ id
unfolding get_device_by_token_hash
get-device-revoked id hash r s (d, has, h) e = elim (Option-cases (available s)) [
  | inr (e', down) ↦ absurd (ground arith)
  | inl up ↦
      let test = λ (r : DeviceRow). r.auth_token_hash == hash && is_live r in
      let found : get_device_by_token_hash hash s ≡ ok (find test (values d)) =
        rw (get_device_by_token_hash, up, has) refl in
      find-values (Entry id) (λ (r : DeviceRow). r.device_id ≢ id) test (live-Entry id hash) d h.0 r
        (ok-injective (find test (values d)) (some r) (sym found ∙ e))
]

-- Once a device is revoked, in a table whose rows stand under their own ids, no history of registrations,
-- of this device again or of others, and of revocations makes a token find it.
pub revoke_device-Lasts :
    (id entity_id hash : String) (s : SqliteStorage) (d : Dict String DeviceRow)
    (calls : List DeviceCall) (r : DeviceRow)
    → s.devices ≡ some d
    → IsKeyed d
    → NodupKeys d
    → (revoke_device entity_id id s).0 ≡ ok true
    → get_device_by_token_hash hash (for_each calls device_call (revoke_device entity_id id s).1)
      ≡ ok (some r)
    → r.device_id ≢ id
revoke_device-Lasts id entity_id hash s d calls r has keyed nodup done =
    get-device-revoked id hash r (for_each calls device_call (revoke_device entity_id id s).1) (
      for_each_inv (IsRevoked id) device_call (device_call-IsRevoked id) calls
        (revoke_device entity_id id s).1 (after_revocation id entity_id s d has keyed nodup done))
