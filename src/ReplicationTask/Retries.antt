-- ===== src/ReplicationTask/Retries.antt =====
-- crates/cordelia-node/src/replication_task.rs: the retries of a push end, and read no backoff out of range.
use cordelia_core.Prelude.{
  ℕ, zero, suc, some, List, [], ◌∷◌, ◌++◌, if◌then◌else◌, ltb, leb, true, false, String, for_each,
  sym, ◌∙◌, subst, ◌+◌, ◌-◌, ◌<◌, ◌≡◌, refl, arith, ap, Bool-cases, inl, inr, All, All-append,
}
use cordelia_core.Protocol.Era.{from_secs}
use cordelia_core.Protocol.Messages.{Hashing, FetchedItem}
use cordelia_core.ReplicationTask.State.{PendingPush, ReplicationLoop}
use mathlib.Core.List.{append_assoc, append-nil}
use cordelia_core.Governor.Peer.{NodeId}
use cordelia_core.Pool.Peers.{PeerPool}
use cordelia_core.Replication.Batches.{split_into_batches}
use cordelia_core.ReplicationTask.Sending.{
  targets, deliveries, Sent, unsent, Sent-trans, push_if_peers-Sent,
}
use cordelia_core.ReplicationTask.Push.{
  try_each, backoff_secs, resend, count_exhausted, retry_push, kept_pushes, retry,
}

-- A push that may be tried again.
abbrev pub IsOpen : PendingPush → Type 0
IsOpen p = p.attempt < 4

-- How many attempts are left, over all pushes.
abbrev pub attempts_left : List PendingPush → ℕ
attempts_left [] = 0
attempts_left (p ∷ ps) = (4 - p.attempt) + attempts_left ps

-- How many pushes are due.
abbrev pub due : ℕ → List PendingPush → ℕ
due now [] = 0
due now (p ∷ ps) = (if ltb now p.next_at then 0 else 1) + due now ps

backoff_in_range : (n : ℕ) → n < 4 → (secs : ℕ) × (backoff_secs n ≡ some secs)
backoff_in_range zero small = (5, refl)
backoff_in_range (suc zero) small = (15, refl)
backoff_in_range (suc (suc zero)) small = (60, refl)
backoff_in_range (suc (suc (suc zero))) small = (300, refl)
backoff_in_range (suc (suc (suc (suc n)))) small = absurd (omega (arith, small))

-- When a push is tried again after attempt n: 15 seconds, a minute and five minutes.
abbrev wait_secs : ℕ → ℕ
wait_secs zero = 15
wait_secs (suc zero) = 60
wait_secs _ = 300

-- What a tick leaves of a push: the push itself before its time; afterwards the next attempt, later, or
-- nothing when the fourth was made.
abbrev pub left_of : ℕ → PendingPush → List PendingPush
left_of now p =
    let again : PendingPush = record p {
      attempt = p.attempt + 1;
      next_at = now + from_secs (wait_secs p.attempt);
    } in
    if ltb now p.next_at then p ∷ [] else if leb 4 (p.attempt + 1) then [] else again ∷ []

abbrev pub all_left : ℕ → List PendingPush → List PendingPush
all_left now [] = []
all_left now (p ∷ ps) = left_of now p ++ all_left now ps

backoff-wait_secs :
    (n : ℕ) → n < 4 → leb 4 (n + 1) ≡ false → backoff_secs (n + 1) ≡ some (wait_secs n)
backoff-wait_secs zero small more = refl
backoff-wait_secs (suc zero) small more = refl
backoff-wait_secs (suc (suc zero)) small more = refl
backoff-wait_secs (suc (suc (suc n))) small more = absurd (ground arith)

attempts_left-append :
    (ps qs : List PendingPush) → attempts_left (ps ++ qs) ≡ attempts_left ps + attempts_left qs
attempts_left-append [] qs = omega arith
attempts_left-append (p ∷ ps) qs = omega (arith, attempts_left-append ps qs)

left_of-attempts :
    (now : ℕ) (p : PendingPush)
    → IsOpen p
    → attempts_left (left_of now p) + due now (p ∷ []) ≡ 4 - p.attempt
left_of-attempts now p small = ground arith

all_left-attempts :
    (now : ℕ) (ps : List PendingPush)
    → All IsOpen ps
    → attempts_left (all_left now ps) + due now ps ≡ attempts_left ps
all_left-attempts now [] open_ps = refl
all_left-attempts now (p ∷ ps) open_ps = omega (
  arith,
  attempts_left-append (left_of now p) (all_left now ps),
  left_of-attempts now p open_ps.0,
  all_left-attempts now ps open_ps.1,
)

left_of-IsOpen : (now : ℕ) (p : PendingPush) → IsOpen p → All IsOpen (left_of now p)
left_of-IsOpen now p small = ground arith

all_left-IsOpen : (now : ℕ) (ps : List PendingPush) → All IsOpen ps → All IsOpen (all_left now ps)
all_left-IsOpen now [] open_ps = tt
all_left-IsOpen now (p ∷ ps) open_ps =
    All-append IsOpen (left_of now p) (all_left now ps) (left_of-IsOpen now p open_ps.0)
      (all_left-IsOpen now ps open_ps.1)

module _ {F : Type 0} (h : Hashing) (now : ℕ) where
  -- What a tick does for a push but for keeping it.
  abbrev tried : PendingPush → ReplicationLoop F → ReplicationLoop F
  tried p s =
      if ltb now p.next_at
      then s
      else if leb 4 (p.attempt + 1)
      then count_exhausted h (resend h p s)
      else resend h p s

  retry_one :
      (p : PendingPush) (keep : List PendingPush) (s : ReplicationLoop F)
      → IsOpen p
      → retry_push h now p (keep, s) ≡ some (keep ++ left_of now p, tried p s)
  unfolding retry_push
  retry_one p keep s small = elim (Bool-cases (ltb now p.next_at)) [
    | inl early ↦ rw (retry_push, early) refl
    | inr late ↦ elim (Bool-cases (leb 4 (p.attempt + 1))) [
      | inl last ↦ rw (retry_push, late, last) (ap (λ ps. some (ps, _)) (sym (append-nil keep)))
      | inr more ↦ rw (retry_push, late, more, backoff-wait_secs p.attempt small more) refl
    ]
  ]

  retry_loop :
      (ps keep : List PendingPush) (s : ReplicationLoop F)
      → All IsOpen ps
      → try_each ps (retry_push h now) (keep, s)
        ≡ some (keep ++ all_left now ps, for_each ps tried s)
  retry_loop [] keep s open_ps = ap (λ ps. some (ps, s)) (sym (append-nil keep))
  retry_loop (p ∷ ps) keep s open_ps =
      rw (try_each, retry_one p keep s open_ps.0)
        (retry_loop ps (keep ++ left_of now p) (tried p s) open_ps.1
          ∙ ap (λ qs. some (qs, for_each ps tried (tried p s)))
              (append_assoc keep (left_of now p) (all_left now ps)))

  retry-all_left :
      (s : ReplicationLoop F)
      → All IsOpen s.pending_pushes
      → retry h now s
        ≡ some (record (for_each s.pending_pushes tried s) {
          pending_pushes = all_left now s.pending_pushes;
        })
  unfolding retry
  retry-all_left s open_ps = ap (kept_pushes h) (retry_loop s.pending_pushes [] s open_ps)

  -- No panic, and attempts left, also when the swarm task does not listen.
  pub retry-IsOpen :
      (s : ReplicationLoop F)
      → All IsOpen s.pending_pushes
      → (s' : ReplicationLoop F) × (retry h now s ≡ some s') × All IsOpen s'.pending_pushes
  retry-IsOpen s open_ps =
      (_, retry-all_left s open_ps, all_left-IsOpen now s.pending_pushes open_ps)

  -- The batches of each push that is due, to the peers of its group.
  abbrev pub resent : PeerPool F → List PendingPush → List (NodeId × List FetchedItem)
  resent pool [] = []
  resent pool (p ∷ ps) =
      (if ltb now p.next_at
        then []
        else deliveries (targets p.group_id pool) (split_into_batches h p.items))
      ++ resent pool ps

  resent-targets :
      (a b : PeerPool F) (ps : List PendingPush)
      → ((g : String) → targets g a ≡ targets g b)
      → resent a ps ≡ resent b ps
  resent-targets a b [] same = refl
  resent-targets a b (p ∷ ps) same = rw (same p.group_id, resent-targets a b ps same) refl

  tried-Sent :
      (p : PendingPush) (s : ReplicationLoop F)
      → s.is_cmd_open ≡ true
      → Sent h s
          (if ltb now p.next_at
            then []
            else deliveries (targets p.group_id s.pool) (split_into_batches h p.items))
          (tried p s)
  tried-Sent p s listens =
      let sent =
        push_if_peers-Sent h p.group_id (split_into_batches h p.items) s (resend h p s) listens
          refl in
      elim (Bool-cases (ltb now p.next_at)) [
        | inl early ↦ rw (early, tried) (unsent h s listens)
        | inr late ↦ elim (Bool-cases (leb 4 (p.attempt + 1))) [
          | inl last ↦ rw (late, tried, last) sent
          | inr more ↦ rw (late, tried, more) sent
        ]
      ]

  all_tried-Sent :
      (ps : List PendingPush) (s : ReplicationLoop F)
      → s.is_cmd_open ≡ true
      → Sent h s (resent s.pool ps) (for_each ps tried s)
  all_tried-Sent [] s listens = unsent h s listens
  all_tried-Sent (p ∷ ps) s listens =
      let one = tried-Sent p s listens in
      let rest = all_tried-Sent ps (tried p s) one.1 in
      Sent-trans h s (tried p s) (for_each ps tried (tried p s)) _ (resent s.pool ps) one (
        subst (λ sent. Sent h (tried p s) sent (for_each ps tried (tried p s)))
          (resent-targets (tried p s).pool s.pool ps (λ g. one.4 g)) rest)

  -- While the swarm task listens and every pending push has made fewer than four attempts, a tick of the
  -- retry timer does not panic. It sends the batches of every push that is due, in order, to the active
  -- peers that are relays or share its group, and no other. A push that is not due stays as it is; one
  -- that is due comes back once, an attempt later and due after 15 seconds, a minute or five minutes, or
  -- after its fourth attempt not at all. So every push that stays has made fewer than four attempts, and
  -- the attempts left in all have gone down by the number of pushes that were due.
  pub retry_lem :
      (s : ReplicationLoop F)
      → s.is_cmd_open ≡ true
      → All IsOpen s.pending_pushes
      → (s' : ReplicationLoop F) × (retry h now s ≡ some s')
        × (s'.pending_pushes ≡ all_left now s.pending_pushes)
        × (s'.pushed ≡ s.pushed ++ resent s.pool s.pending_pushes)
        × All IsOpen s'.pending_pushes
        × (attempts_left s'.pending_pushes + due now s.pending_pushes
            ≡ attempts_left s.pending_pushes)
  retry_lem s listens open_ps = (
    _,
    retry-all_left s open_ps,
    refl,
    (all_tried-Sent s.pending_pushes s listens).0,
    all_left-IsOpen now s.pending_pushes open_ps,
    all_left-attempts now s.pending_pushes open_ps,
  )
