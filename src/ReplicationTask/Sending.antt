-- ===== src/ReplicationTask/Sending.antt =====
-- crates/cordelia-node/src/replication_task.rs: pushes to the peers of a group, and what they leave alone.
use cordelia_core.Prelude.{
  ℕ, String, Bool, true, List, [], ◌∷◌, ◌++◌, map, length, is_empty, if◌then◌else◌, filter,
  for_each, ◌==◌, ◌≡◌, refl, arith, ap, sym, ◌∙◌, subst, if_split, Bool-cases, inl, inr, string_eq,
  nat_eq,
}
use mathlib.Core.List.{append_assoc, append-nil}
use cordelia_core.Prelude.Dict.{Dict, modify, values}
use cordelia_core.Protocol.Messages.{Hashing, FetchedItem}
use cordelia_core.Governor.Peer.{NodeId}
use cordelia_core.Pool.Peers.{PeerHandle, PeerPool, record_items_delivered}
use cordelia_core.Pool.Select.{active_peers_for_group_or_relays, is_target}
use cordelia_core.ReplicationTask.State.{ReplicationLoop}
use cordelia_core.ReplicationTask.Push.{send_push, send_batches}

module _ {F : Type 0} where
  -- The peers that a push of a group goes to.
  abbrev pub targets : String → PeerPool F → List NodeId
  targets g pool = map (λ (p : PeerHandle F). p.node_id) (active_peers_for_group_or_relays g pool)

  -- An update that changes neither the ids nor a test changes nothing in what the test selects.
  module _ (test : PeerHandle F → Bool) (f : PeerHandle F → PeerHandle F)
      (same : (p : PeerHandle F) → ((f p).node_id ≡ p.node_id) × (test (f p) ≡ test p)) where
    abbrev ids : List (PeerHandle F) → List NodeId
    ids ps = map (λ (p : PeerHandle F). p.node_id) (filter test ps)

    ids-cons :
        (p q : PeerHandle F) (ps qs : List (PeerHandle F))
        → p.node_id ≡ q.node_id
        → test p ≡ test q
        → ids ps ≡ ids qs
        → ids (p ∷ ps) ≡ ids (q ∷ qs)
    ids-cons p q ps qs name kept rest = elim (Bool-cases (test q)) [
      | inl yes_q ↦ rw (kept, yes_q, name, rest) refl
      | inr no_q ↦ rw (kept, no_q) rest
    ]

    ids-modify :
        (k : NodeId) (d : Dict NodeId (PeerHandle F)) → ids (values (modify k f d)) ≡ ids (values d)
    unfolding modify
    ids-modify k [] = refl
    ids-modify k ((j, p) ∷ d) = elim (Bool-cases (j == k)) [
      | inl hit ↦ rw hit (ids-cons (f p) p (values d) (values d) (same p).0 (same p).1 refl)
      | inr miss ↦
          rw miss (ids-cons p p (values (modify k f d)) (values d) refl refl (ids-modify k d))
    ]

  targets-record_items_delivered :
      (g : String) (k : NodeId) (n : ℕ) (pool : PeerPool F)
      → targets g (record_items_delivered k n pool) ≡ targets g pool
  unfolding record_items_delivered
  targets-record_items_delivered g k n pool =
      ids-modify (is_target g) _ (λ p. (refl, refl)) k pool.inner

-- Each batch in turn, to each peer in turn.
abbrev pub deliveries : List NodeId → List (List FetchedItem) → List (NodeId × List FetchedItem)
deliveries ids [] = []
deliveries ids (batch ∷ batches) = map (λ id. (id, batch)) ids ++ deliveries ids batches

pub deliveries-nil : (batches : List (List FetchedItem)) → deliveries [] batches ≡ []
deliveries-nil [] = refl
deliveries-nil (b ∷ bs) = deliveries-nil bs

module _ {F : Type 0} (h : Hashing) where
  -- From one state to another by some pushes, and nothing else that a flush looks at.
  abbrev pub Sent :
      ReplicationLoop F → List (NodeId × List FetchedItem) → ReplicationLoop F → Type 0
  Sent s sent s' =
      (s'.pushed ≡ s.pushed ++ sent)
      × (s'.is_cmd_open ≡ true)
      × (s'.pending_pushes ≡ s.pending_pushes)
      × (s'.write_buffer ≡ s.write_buffer)
      × ((g : String) → targets g s'.pool ≡ targets g s.pool)

  pub unsent : (s : ReplicationLoop F) → s.is_cmd_open ≡ true → Sent s [] s
  unsent s listens = (sym (append-nil s.pushed), listens, refl, refl, λ g. refl)

  pub Sent-trans :
      (s t u : ReplicationLoop F) (xs ys : List (NodeId × List FetchedItem))
      → Sent s xs t
      → Sent t ys u
      → Sent s (xs ++ ys) u
  Sent-trans s t u xs ys (p, o, q, w, ts) (p', o', q', w', ts') = (
    p' ∙ (ap (λ l. l ++ ys) p ∙ append_assoc s.pushed xs ys),
    o',
    q' ∙ q,
    w' ∙ w,
    λ g. ts' g ∙ ts g,
  )

  send_push-Sent :
      (batch : List FetchedItem) (p : PeerHandle F) (s : ReplicationLoop F)
      → s.is_cmd_open ≡ true
      → Sent s ((p.node_id, batch) ∷ []) (send_push h batch p s)
  unfolding send_push
  send_push-Sent batch p s listens =
      rw (send_push, listens)
        (
          refl,
          refl,
          refl,
          refl,
          λ g. targets-record_items_delivered g p.node_id (length batch) s.pool,
        )

  send_all-Sent :
      (batch : List FetchedItem) (peers : List (PeerHandle F)) (s : ReplicationLoop F)
      → s.is_cmd_open ≡ true
      → Sent s
          (map (λ id. (id, batch)) (map (λ (p : PeerHandle F). p.node_id) peers))
          (for_each peers (send_push h batch) s)
  send_all-Sent batch [] s listens = unsent s listens
  send_all-Sent batch (p ∷ peers) s listens =
      let one = send_push-Sent batch p s listens in
      Sent-trans s (send_push h batch p s)
        (for_each peers (send_push h batch) (send_push h batch p s)) ((p.node_id, batch) ∷ [])
        (map (λ id. (id, batch)) (map (λ (p : PeerHandle F). p.node_id) peers)) one
        (send_all-Sent batch peers (send_push h batch p s) one.1)

  pub send_batches-Sent :
      (batches : List (List FetchedItem)) (peers : List (PeerHandle F)) (s : ReplicationLoop F)
      → s.is_cmd_open ≡ true
      → Sent s
          (deliveries (map (λ (p : PeerHandle F). p.node_id) peers) batches)
          (send_batches h batches peers s)
  unfolding send_batches
  send_batches-Sent [] peers s listens = unsent s listens
  send_batches-Sent (b ∷ batches) peers s listens =
      let one = send_all-Sent b peers s listens in
      let ids = map (λ (p : PeerHandle F). p.node_id) peers in
      Sent-trans s (for_each peers (send_push h b) s)
        (send_batches h batches peers (for_each peers (send_push h b) s)) (map (λ id. (id, b)) ids)
        (deliveries ids batches) one
        (send_batches-Sent batches peers (for_each peers (send_push h b) s) one.1)

  pub no_targets :
      (peers : List (PeerHandle F))
      → is_empty peers ≡ true
      → map (λ (p : PeerHandle F). p.node_id) peers ≡ []
  no_targets [] e = refl
  no_targets (p ∷ peers) e = absurd (ground arith)

  -- A push to the peers of a group, if there are any.
  pub push_if_peers-Sent :
      (g : String) (batches : List (List FetchedItem)) (s t : ReplicationLoop F)
      → s.is_cmd_open ≡ true
      → t ≡ (
          if is_empty (active_peers_for_group_or_relays g s.pool)
          then s
          else send_batches h batches (active_peers_for_group_or_relays g s.pool) s)
      → Sent s (deliveries (targets g s.pool) batches) t
  push_if_peers-Sent g batches s t listens e =
      let peers = active_peers_for_group_or_relays g s.pool in
      subst (Sent s (deliveries (targets g s.pool) batches)) (sym e) (
        if_split (Sent s (deliveries (targets g s.pool) batches)) (is_empty peers) _ _
          (λ alone.
            subst (λ sent. Sent s sent s)
              (sym (
                ap (λ ids. deliveries ids batches) (no_targets peers alone)
                ∙ deliveries-nil batches))
              (unsent s listens))
          (λ some_peers. send_batches-Sent batches peers s listens))
