-- ===== src/Tasks/Queue/Cancel.antt =====
-- What a canceled Submit leaves behind.
use cortex_go.Tasks.Queue.{Queue, set, submit, give_up, Reachable, here, next, queued_record}
use cortex_go.Prelude.{◌≡◌, refl, false, some, [], Str, str_eq_refl, is_empty, lookup, lookup-put}

-- In every state a Submit may be canceled before its task enters the channel; then the task is
-- nowhere in the queue that it was not before, and still its record says that it is queued.
pub submit-canceled :
    (q : Queue) (id : Str)
    → is_empty id ≡ false
    → (q' : Queue) × Reachable q q'
      × (lookup id q'.records ≡ some (queued_record id))
      × (q'.submitting ≡ q.submitting)
      × (q'.jobs ≡ q.jobs)
      × (q'.taken ≡ q.taken)
      × (q'.executing ≡ q.executing)
unfolding set
submit-canceled q id named =
    let records = set (queued_record id) q.records in
    (
      record q { records = records },
      next (next here (submit id named refl)) (give_up [] id q.submitting refl refl),
      rw (str_eq_refl id) at (lookup-put id id (queued_record id) q.records),
      refl,
      refl,
      refl,
      refl,
    )
