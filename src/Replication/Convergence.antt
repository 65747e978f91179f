-- ===== src/Replication/Convergence.antt =====
-- crates/cordelia-replication/src/engine.rs: the outcome of `on_receive` over many deliveries.
use cordelia_core.Prelude.{
  String, Bool, true, false, Option, some, List, [], ◌∷◌, ◌++◌, ◌≡◌, ◌≢◌, ◌⊎◌, inl, inr, refl, sym,
  ap, ◌∙◌, subst, arith, string_eq, option_eq, for_each, All,
}
use cordelia_core.Prelude.Text.{text_leb, text_leb_total, text_leb_refl}
use cordelia_core.Protocol.Messages.{Hashing, FetchedItem}
use cordelia_core.Storage.Rows.{Result, ok, err, L2ItemRow, Result-cases}
use cordelia_core.Storage.Interface.{ItemStore, IsItemStore, IsRowOf, Working}
use cordelia_core.Replication.Culture.{stored}
use cordelia_core.Replication.Engine.{
  Texts, is_tombstone_item, write_of, log_of, is_known, delete_outcome, write_outcome, on_receive,
}
use cordelia_core.Replication.Receive.{
  on_receive_by, written_lem, on_receive-others, on_receive-stored,
}
use cordelia_core.Replication.Versions.{IsGood, Yields, row_of_older, row_of_newest, row_of_same}

module _ (h : Hashing) (x : Texts) (st : ItemStore) (our_groups : List String)
    (relay_accepts : Option (String → Bool)) where
  -- The loop over the items of a push, or of an answer to a fetch.
  unfoldable pub receive_all : List FetchedItem → st.State → st.State
  receive_all items s =
      for_each items (λ item s. (on_receive h x st item our_groups relay_accepts s).1) s

  module _ (laws : IsItemStore h st) (works : Working st) where
    open works use {Works, write-ok, write-Works, delete-Works, log-Works}

    abbrev after : FetchedItem → st.State → st.State
    after item s = (on_receive h x st item our_groups relay_accepts s).1

    delete_outcome_keeps :
        (d : Result Bool × st.State) → Works d.1 → Works (delete_outcome h x st d).1
    delete_outcome_keeps (ok true, s) up = up
    delete_outcome_keeps (ok false, s) up = up
    delete_outcome_keeps (err e, s) up = up

    write_outcome_keeps :
        (item : FetchedItem) (d : Result (Unit {0}) × st.State)
        → Works d.1
        → Works (write_outcome h x st item d).1
    write_outcome_keeps item (ok done, s) up = log-Works (log_of item) s up
    write_outcome_keeps item (err e, s) up = up

    after-Works : (item : FetchedItem) (s : st.State) → Works s → Works (after item s)
    after-Works item s up =
        on_receive_by h x st item our_groups relay_accepts s (λ r. Works r.1) (λ why. up)
          (λ admitted dead.
            delete_outcome_keeps (st.delete_l2_item item.item_id s)
              (delete-Works item.item_id s up))
          (λ live. up)
          (λ admitted live valid new.
            write_outcome_keeps item (st.write_l2_item (write_of item) s)
              (write-Works (write_of item) s up))

    -- A good item that is news is stored.
    pub on_receive_good :
        (item : FetchedItem) (s : st.State)
        → Works s
        → IsGood h works our_groups relay_accepts item
        → is_known (st.read_l2_item item.item_id s) item ≡ false
        → (on_receive h x st item our_groups relay_accepts s).0 ≡ stored
    unfolding on_receive
    on_receive_good item s up good new =
        let written = write-ok (write_of item) s up good.fits in
        rw (good.admitted.size, good.admitted.group, good.live, good.valid, new) (ground arith)

    module _ (newest : FetchedItem) (good : IsGood h works our_groups relay_accepts newest) where
      -- The store does not know the newest version, or holds it.
      abbrev Lacks : st.State → Type 0
      Lacks s = is_known (st.read_l2_item newest.item_id s) newest ≡ false

      abbrev Holds : st.State → Type 0
      Holds s =
          (row : L2ItemRow) × (st.read_l2_item newest.item_id s ≡ ok (some row))
          × IsRowOf h (write_of newest) row

      abbrev LacksAt : String → st.State → Type 0
      LacksAt id s = is_known (st.read_l2_item id s) newest ≡ false

      older-LacksAt :
          (item : FetchedItem) (s : st.State)
          → is_tombstone_item item ≡ false
          → text_leb newest.updated_at item.updated_at ≡ false
          → item.checksum ≢ newest.checksum
          → LacksAt item.item_id s
          → LacksAt item.item_id (after item s)
      older-LacksAt item s live older differ lacks =
          on_receive_by h x st item our_groups relay_accepts s (λ r. LacksAt item.item_id r.1)
            (λ why. lacks) (λ admitted dead. absurd (ground arith)) (λ live. lacks)
            (λ admitted live valid new. elim (Result-cases (st.write_l2_item (write_of item) s).0) [
              | inl (u, done) ↦
                  let (row, found, is_row) = written_lem h x st laws item s (ground arith) in
                  rw found (row_of_older h newest item row is_row valid older differ)
              | inr (why, failed) ↦
                  let kept = laws.read-write_err (write_of item) s why item.item_id failed in
                  let state : (write_outcome h x st item (st.write_l2_item (write_of item) s)).1
                      ≡ (st.write_l2_item (write_of item) s).1 =
                    ground arith in
                  rw (state, kept) lacks
            ])

      older-Lacks :
          (item : FetchedItem) (s : st.State)
          → is_tombstone_item item ≡ false
          → text_leb newest.updated_at item.updated_at ≡ false
          → item.checksum ≢ newest.checksum
          → Lacks s
          → Lacks (after item s)
      older-Lacks item s live older differ lacks =
          elim (string_eq.dec item.item_id newest.item_id) [
            | yes same ↦
                subst (λ id. LacksAt id (after item s)) same
                  (older-LacksAt item s live older differ
                    (subst (λ id. LacksAt id s) (sym same) lacks))
            | no other ↦
                rw
                  (on_receive-others h x st laws item our_groups relay_accepts s newest.item_id
                    other)
                  lacks
          ]

      newest-Holds : (s : st.State) → Works s → Lacks s → Holds (after newest s)
      newest-Holds s up lacks =
          elim (on_receive-stored h x st laws newest our_groups relay_accepts s
            (on_receive_good newest s up good lacks)).1 [
              | inl (dead, gone) ↦ absurd (ground (arith, good.live))
              | inr (live, valid, row, found, same) ↦ (row, found, same)
            ]

      step-Lacks :
          (item : FetchedItem) (s : st.State)
          → Works s
          → Yields newest item
          → Lacks s
          → Lacks (after item s) ⊎ Holds (after item s)
      step-Lacks item s up (inl other) lacks = inl (
          rw (on_receive-others h x st laws item our_groups relay_accepts s newest.item_id other)
            lacks)
      step-Lacks item s up (inr (inl (live, older, differ))) lacks =
          inl (older-Lacks item s live older differ lacks)
      step-Lacks item s up (inr (inr same)) lacks =
          inr (subst (λ i. Holds (after i s)) (sym same) (newest-Holds s up lacks))

      known-Holds :
          (item : FetchedItem) (s : st.State)
          → is_tombstone_item item ≡ false
          → is_known (st.read_l2_item item.item_id s) item ≡ true
          → Holds s
          → Holds (after item s)
      known-Holds item s live known held =
          on_receive_by h x st item our_groups relay_accepts s (λ r. Holds r.1) (λ why. held)
            (λ admitted dead. absurd (ground arith)) (λ live. held)
            (λ admitted live valid new. absurd (ground arith))

      not_newer-Holds :
          (item : FetchedItem) (s : st.State)
          → is_tombstone_item item ≡ false
          → text_leb item.updated_at newest.updated_at ≡ true
          → item.item_id ≡ newest.item_id
          → Holds s
          → Holds (after item s)
      not_newer-Holds item s live older same (row, found, is_row) =
          let found' : st.read_l2_item item.item_id s ≡ ok (some row) =
            ap (λ id. st.read_l2_item id s) same ∙ found in
          known-Holds item s live (rw found' (row_of_newest h newest item row is_row older))
            (row, found, is_row)

      other-Holds :
          (item : FetchedItem) (s : st.State)
          → item.item_id ≢ newest.item_id
          → Holds s
          → Holds (after item s)
      other-Holds item s other (row, found, is_row) = (
        row,
        on_receive-others h x st laws item our_groups relay_accepts s newest.item_id other ∙ found,
        is_row,
      )

      step-Holds :
          (item : FetchedItem) (s : st.State) → Yields newest item → Holds s → Holds (after item s)
      step-Holds item s (inl other) held = other-Holds item s other held
      step-Holds item s (inr (inl (live, older, differ))) held =
          elim (string_eq.dec item.item_id newest.item_id) [
            | yes same ↦
                not_newer-Holds item s live (text_leb_total newest.updated_at item.updated_at older)
                  same held
            | no other ↦ other-Holds item s other held
          ]
      step-Holds item s (inr (inr same)) held =
          subst (λ i. Holds (after i s)) (sym same)
            (not_newer-Holds newest s good.live (text_leb_refl newest.updated_at) refl held)

      receive_all-Holds :
          (items : List FetchedItem) (s : st.State)
          → All (Yields newest) items
          → Holds s
          → Holds (receive_all items s)
      unfolding receive_all
      receive_all-Holds [] s yields held = held
      receive_all-Holds (item ∷ items) s yields held =
          receive_all-Holds items (after item s) yields.1 (step-Holds item s yields.0 held)

      -- The state before a delivery of the newest version, whatever came first.
      until_newest :
          (items rest : List FetchedItem) (s : st.State)
          → Works s
          → All (Yields newest) items
          → All (Yields newest) rest
          → Lacks s ⊎ Holds s
          → Holds (receive_all (items ++ newest ∷ rest) s)
      unfolding receive_all
      until_newest [] rest s up yields later (inl lacks) =
          receive_all-Holds rest (after newest s) later (newest-Holds s up lacks)
      until_newest [] rest s up yields later (inr held) =
          receive_all-Holds rest (after newest s) later (step-Holds newest s (inr (inr refl)) held)
      until_newest (item ∷ items) rest s up yields later (inl lacks) =
          until_newest items rest (after item s) (after-Works item s up) yields.1 later
            (step-Lacks item s up yields.0 lacks)
      until_newest (item ∷ items) rest s up yields later (inr held) =
          until_newest items rest (after item s) (after-Works item s up) yields.1 later
            (inr (step-Holds item s yields.0 held))

    -- A store that works, and at the start holds the version `newest` of an item or has nothing that
    -- on_receive counts as it, ends with that version after any deliveries with these properties, in any
    -- order and repeated as often as you like: `newest` is among them and can be taken in; a delivery
    -- under its id is `newest` itself, or no tombstone, with an earlier timestamp and another checksum.
    -- Excluded, and not true, are an earlier version with the same content, and a tie.
    pub receive_all-newest :
        (newest : FetchedItem) (items rest : List FetchedItem) (s : st.State)
        → IsGood h works our_groups relay_accepts newest
        → Works s
        → (is_known (st.read_l2_item newest.item_id s) newest ≡ false)
          ⊎ ((row : L2ItemRow) × (st.read_l2_item newest.item_id s ≡ ok (some row))
              × IsRowOf h (write_of newest) row)
        → All (Yields newest) items
        → All (Yields newest) rest
        → (row : L2ItemRow) × (st.read_l2_item newest.item_id
              (receive_all (items ++ newest ∷ rest) s)
            ≡ ok (some row))
          × IsRowOf h (write_of newest) row
    receive_all-newest newest items rest s good up at_start yields later =
        until_newest newest good items rest s up yields later at_start

    -- A store that holds a version does not know a later one with other content.
    overtaken-Lacks :
        (a b : FetchedItem) (good_a : IsGood h works our_groups relay_accepts a)
        (good_b : IsGood h works our_groups relay_accepts b) (s : st.State)
        → a.item_id ≡ b.item_id
        → text_leb b.updated_at a.updated_at ≡ false
        → a.checksum ≢ b.checksum
        → Holds a good_a s
        → Lacks b good_b s
    overtaken-Lacks a b good_a good_b s same later differ (row, found, is_row) =
        let found' : st.read_l2_item b.item_id s ≡ ok (some row) =
          ap (λ id. st.read_l2_item id s) (sym same) ∙ found in
        rw found' (row_of_older h b a row is_row good_a.valid later differ)

    same_content-Holds :
        (a again : FetchedItem) (good_a : IsGood h works our_groups relay_accepts a) (s : st.State)
        → is_tombstone_item again ≡ false
        → again.item_id ≡ a.item_id
        → again.checksum ≡ a.checksum
        → Holds a good_a s
        → Holds a good_a (after again s)
    same_content-Holds a again good_a s live same content (row, found, is_row) =
        let found' : st.read_l2_item again.item_id s ≡ ok (some row) =
          ap (λ id. st.read_l2_item id s) same ∙ found in
        known-Holds a good_a again s live
          (rw found' (row_of_same h a again row is_row good_a.valid content)) (row, found, is_row)

    -- A version that is overtaken comes back: with a first version, the same content again at a later
    -- time, and another content dated between the two, the order of arrival decides. If the version in
    -- between comes last it stays, although it is not the newest; if it comes before the repeated
    -- content, that stays. So two replicas that receive the three in different orders differ.
    pub on_receive-repeated :
        (a again b : FetchedItem) (s : st.State)
        → IsGood h works our_groups relay_accepts a
        → IsGood h works our_groups relay_accepts again
        → IsGood h works our_groups relay_accepts b
        → Works s
        → again.item_id ≡ a.item_id
        → b.item_id ≡ a.item_id
        → again.checksum ≡ a.checksum
        → a.checksum ≢ b.checksum
        → text_leb b.updated_at a.updated_at ≡ false
        → text_leb again.updated_at b.updated_at ≡ false
        → is_known (st.read_l2_item a.item_id s) a ≡ false
        → ((row : L2ItemRow) × (st.read_l2_item b.item_id (receive_all (a ∷ again ∷ b ∷ []) s)
              ≡ ok (some row))
            × IsRowOf h (write_of b) row)
          × ((row : L2ItemRow) × (st.read_l2_item again.item_id (receive_all (a ∷ b ∷ again ∷ []) s)
                ≡ ok (some row))
              × IsRowOf h (write_of again) row)
    unfolding receive_all
    on_receive-repeated a again b s good_a good_again good_b up same_again same_b content differ
          b_later again_later lacks =
        let up_a = after-Works a s up in
        let held = newest-Holds a good_a s up lacks in
        let held' =
          same_content-Holds a again good_a (after a s) good_again.live same_again content held in
        let to_b = λ (t : st.State) (k : Holds a good_a t).
          overtaken-Lacks a b good_a good_b t (sym same_b) b_later differ k in
        let held_b = newest-Holds b good_b (after a s) up_a (to_b (after a s) held) in
        (
          newest-Holds b good_b (after again (after a s)) (after-Works again (after a s) up_a)
              (to_b (after again (after a s)) held'),
          newest-Holds again good_again (after b (after a s)) (after-Works b (after a s) up_a) (
              overtaken-Lacks b again good_b good_again (after b (after a s))
                (same_b ∙ sym same_again) again_later (λ e. differ (sym (e ∙ content))) held_b),
        )

    -- A tie is not resolved: of two good versions of an item with one timestamp and a database that
    -- knows neither, the one that arrives first stays, so that two replicas that receive them in
    -- different orders keep different versions.
    pub on_receive-tie :
        (a b : FetchedItem) (s : st.State)
        → IsGood h works our_groups relay_accepts a
        → IsGood h works our_groups relay_accepts b
        → Works s
        → b.item_id ≡ a.item_id
        → b.updated_at ≡ a.updated_at
        → is_known (st.read_l2_item a.item_id s) a ≡ false
        → is_known (st.read_l2_item b.item_id s) b ≡ false
        → ((row : L2ItemRow) × (st.read_l2_item a.item_id (receive_all (a ∷ b ∷ []) s)
              ≡ ok (some row))
            × IsRowOf h (write_of a) row)
          × ((row : L2ItemRow) × (st.read_l2_item b.item_id (receive_all (b ∷ a ∷ []) s)
                ≡ ok (some row))
              × IsRowOf h (write_of b) row)
    unfolding receive_all
    on_receive-tie a b s good_a good_b up same time lacks_a lacks_b = (
      not_newer-Holds a good_a b (after a s) good_b.live (rw time (text_leb_refl a.updated_at)) same
          (newest-Holds a good_a s up lacks_a),
      not_newer-Holds b good_b a (after b s) good_a.live (rw time (text_leb_refl a.updated_at))
          (sym same) (newest-Holds b good_b s up lacks_b),
    )
