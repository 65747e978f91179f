-- ===== src/ReplicationTask/Flush.antt =====
-- crates/cordelia-node/src/replication_task.rs: what a flush sends, and what it keeps for the retries.
use cordelia_core.Prelude.{
  ℕ, String, true, Option, some, List, [], ◌∷◌, ◌++◌, length, is_empty, if◌then◌else◌, ◌+◌, ◌≡◌,
  refl, ap, sym, ◌∙◌, subst, if_split, string_eq, nat_eq,
}
use mathlib.Core.List.{append_assoc, append-nil}
use cordelia_core.Prelude.Dict.{Dict}
use cordelia_core.Protocol.Era.{from_secs}
use cordelia_core.Protocol.Messages.{Hashing, FetchedItem}
use cordelia_core.Governor.Peer.{NodeId}
use cordelia_core.Pool.Peers.{PeerPool}
use cordelia_core.Pool.Select.{active_peers_for_group_or_relays}
use cordelia_core.Replication.Batches.{split_into_batches}
use cordelia_core.ReplicationTask.State.{ReplicationLoop, PendingPush}
use cordelia_core.ReplicationTask.Push.{
  try_each, send_batches, enqueue, count_pushed, flush_group, flush,
}
use cordelia_core.ReplicationTask.Sending.{
  targets, deliveries, deliveries-nil, Sent, unsent, send_batches-Sent, no_targets,
}

-- What it keeps for the retries: each group's items that there are, due five seconds later.
abbrev pub queued : ℕ → Dict String (List FetchedItem) → List PendingPush
queued now [] = []
queued now ((g, items) ∷ d) =
    let rest = queued now d in
    if is_empty items
    then rest
    else record { items = items; group_id = g; attempt = 0; next_at = now + from_secs 5 } ∷ rest

extended {ℓ} : {A : Type ℓ} (s t u xs ys : List A) → t ≡ s ++ xs → u ≡ t ++ ys → u ≡ s ++ (xs ++ ys)
extended s t u xs ys p q = q ∙ (ap (λ l. l ++ ys) p ∙ append_assoc s xs ys)

queued-cons :
    (now : ℕ) (g : String) (items : List FetchedItem) (d : Dict String (List FetchedItem))
    → queued now ((g, items) ∷ d) ≡ queued now ((g, items) ∷ []) ++ queued now d
queued-cons now g [] d = refl
queued-cons now g (i ∷ items) d = refl

split-nil : (h : Hashing) → split_into_batches h [] ≡ []
unfolding split_into_batches
split-nil h = refl

module _ {F : Type 0} (h : Hashing) where
  -- What a flush sends.
  abbrev pub all_deliveries :
      PeerPool F → Dict String (List FetchedItem) → List (NodeId × List FetchedItem)
  all_deliveries pool [] = []
  all_deliveries pool ((g, items) ∷ d) =
      deliveries (targets g pool) (split_into_batches h items) ++ all_deliveries pool d

  all_deliveries-targets :
      (a b : PeerPool F) (d : Dict String (List FetchedItem))
      → ((g : String) → targets g a ≡ targets g b)
      → all_deliveries a d ≡ all_deliveries b d
  all_deliveries-targets a b [] same = refl
  all_deliveries-targets a b ((g, items) ∷ d) same =
      rw (same g, all_deliveries-targets a b d same) refl

  -- What the flush of some groups leaves.
  abbrev Flushed :
      ℕ → ReplicationLoop F → Dict String (List FetchedItem) → Option (ReplicationLoop F) → Type 0
  Flushed now s d r =
      (s' : ReplicationLoop F) × (r ≡ some s')
      × (s'.pushed ≡ s.pushed ++ all_deliveries s.pool d)
      × (s'.is_cmd_open ≡ true)
      × (s'.pending_pushes ≡ s.pending_pushes ++ queued now d)
      × (s'.write_buffer ≡ s.write_buffer)
      × ((g : String) → targets g s'.pool ≡ targets g s.pool)

  -- A group with items is queued after its pushes.
  enqueued :
      (now : ℕ) (g : String) (i : FetchedItem) (items : List FetchedItem) (s t : ReplicationLoop F)
      → Sent h s (deliveries (targets g s.pool) (split_into_batches h (i ∷ items))) t
      → Flushed now s ((g, i ∷ items) ∷ []) (enqueue h now g (i ∷ items) t)
  enqueued now g i items s t (p, o, q, w, ts) =
      let new : PendingPush = record {
        items = i ∷ items;
        group_id = g;
        attempt = 0;
        next_at = now + from_secs 5;
      } in
      let all = deliveries (targets g s.pool) (split_into_batches h (i ∷ items)) in
      (
        record t { pending_pushes = t.pending_pushes ++ new ∷ [] },
        refl,
        p ∙ ap (λ l. s.pushed ++ l) (sym (append-nil all)),
        o,
        ap (λ l. l ++ new ∷ []) q,
        w,
        ts,
      )

  one_group :
      (now : ℕ) (g : String) (items : List FetchedItem) (s : ReplicationLoop F)
      → s.is_cmd_open ≡ true
      → Flushed now s ((g, items) ∷ []) (flush_group h now (g, items) s)
  unfolding flush_group
  one_group now g [] s listens = (
    s,
    refl,
    sym (
        ap (λ b. s.pushed ++ (deliveries (targets g s.pool) b ++ [])) (split-nil h)
        ∙ append-nil s.pushed),
    listens,
    sym (append-nil s.pending_pushes),
    refl,
    λ g. refl,
  )
  one_group now g (i ∷ items) s listens =
      let peers = active_peers_for_group_or_relays g s.pool in
      let batches = split_into_batches h (i ∷ items) in
      if_split (Flushed now s ((g, i ∷ items) ∷ [])) (is_empty peers) _ _
        (λ alone. enqueued now g i items s s (
          subst (λ sent. Sent h s sent s)
            (sym (
              ap (λ ids. deliveries ids batches) (no_targets h peers alone)
              ∙ deliveries-nil batches))
            (unsent h s listens)))
        (λ some_peers.
          enqueued now g i items s
            (count_pushed h (length (i ∷ items)) (send_batches h batches peers s))
            (send_batches-Sent h batches peers s listens))

  each_group :
      (now : ℕ) (d : Dict String (List FetchedItem)) (s : ReplicationLoop F)
      → s.is_cmd_open ≡ true
      → Flushed now s d (try_each d (flush_group h now) s)
  each_group now [] s listens = (
    s,
    refl,
    sym (append-nil s.pushed),
    listens,
    sym (append-nil s.pending_pushes),
    refl,
    λ g. refl,
  )
  each_group now ((g, items) ∷ d) s listens =
      let (t, e, p, o, q, w, ts) = one_group now g items s listens in
      let now_sent = deliveries (targets g s.pool) (split_into_batches h items) in
      let (u, e', p', o', q', w', ts') = each_group now d t o in
      (
        u,
        rw (try_each, e) e',
        extended s.pushed t.pushed u.pushed now_sent (all_deliveries s.pool d)
            (p ∙ ap (λ l. s.pushed ++ l) (append-nil now_sent))
            (p' ∙ ap (λ l. t.pushed ++ l) (all_deliveries-targets t.pool s.pool d ts)),
        o',
        extended s.pending_pushes t.pending_pushes u.pending_pushes (queued now ((g, items) ∷ []))
              (queued now d) q q'
            ∙ ap (λ l. s.pending_pushes ++ l) (sym (queued-cons now g items d)),
        w' ∙ w,
        λ g. ts' g ∙ ts g,
      )

  -- While the swarm task listens, a flush does not panic and empties the buffer. It sends the batches of
  -- each group's items, in order, to every active peer that is a relay or shares the group, as the peers
  -- are when it starts, and queues each group's items once for the retries.
  pub flush_lem :
      (now : ℕ) (s : ReplicationLoop F)
      → s.is_cmd_open ≡ true
      → (s' : ReplicationLoop F) × (flush h now s ≡ some s')
        × (s'.write_buffer ≡ [])
        × (s'.pushed ≡ s.pushed ++ all_deliveries s.pool s.write_buffer)
        × (s'.pending_pushes ≡ s.pending_pushes ++ queued now s.write_buffer)
  unfolding flush
  flush_lem now s listens =
      let (s', e, p, o, q, w, ts) =
        each_group now s.write_buffer (record s { write_buffer = [] }) listens in
      (s', e, w, p, q)
