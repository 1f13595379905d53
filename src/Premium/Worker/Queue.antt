-- ===== src/Premium/Worker/Queue.antt =====
-- The worker of hushline/premium.py as a queue: how many events are pending after its rounds.
use hushline.Common.{
  ℕ, zero, suc, ◌≡◌, ◌∙◌, refl, ◌⊎◌, inl, inr, true, false, some, String, arith, Option-cases,
  count, string_eq,
}
use hushline.Premium.Work.{
  StripeEvent, Work, Outcome, returned, raised, Error, value_error, multiple_results,
  integrity_error,
}
use hushline.Premium.Worker.Stop.{
  IsStopped, put_event-AnyEvent, process_integrity, worker_rounds-ended, worker_round-takes,
  worker_round-idle,
}
use hushline.Premium.Worker.{
  Store, Library, next_event, put_event, close_event, event_or, run_event, worker_round, settle,
  stopped, taken_up, work_of, worker_rounds, process,
}
use hushline.Premium.Worker.Events.{Carries, process-Carries}
use hushline.Premium.Worker.Table.{
  is_open, IsKeyed, next_event-idle, count-put_event, put_event-IsKeyed,
}

close_event-closed :
    (message : Error → String) (out : Outcome) (e : StripeEvent)
    → is_open (close_event message out e) ≡ false
close_event-closed message returned e = refl
close_event-closed message (raised x) e = refl

close_event-id :
    (message : Error → String) (out : Outcome) (e : StripeEvent)
    → (close_event message out e).event_id ≡ e.event_id
close_event-id message returned e = refl
close_event-id message (raised x) e = refl

carried-id :
    (e d : StripeEvent) (w : Work) → Carries e w → (event_or w.event d).event_id ≡ e.event_id
carried-id e d w (inl h) = ground arith
carried-id e d w (inr h) = ground arith

-- A worker that runs has closed the one row it took; or the database refused an invoice's row.
settle-events :
    (lib : Library) (e : StripeEvent) (out : Outcome) (w : Work) (st : Store)
    → Carries e w
    → ((e' : StripeEvent) × (e'.event_id ≡ e.event_id)
        × (is_open e' ≡ false)
        × ((settle lib.message out e w st).events ≡ put_event e' st.events)
        × ((settle lib.message out e w st).worker_runs ≡ st.worker_runs))
      ⊎ ((out ≡ raised integrity_error) × (settle lib.message out e w st ≡ stopped e st))
settle-events lib e (raised integrity_error) w st c = inr (refl, refl)
settle-events lib e returned w st c = inl (
  close_event lib.message returned (event_or w.event e),
  close_event-id lib.message returned (event_or w.event e) ∙ carried-id e e w c,
  refl,
  refl,
  refl,
)
settle-events lib e (raised value_error) w st c = inl (
  close_event lib.message (raised value_error) (event_or w.event e),
  close_event-id lib.message (raised value_error) (event_or w.event e) ∙ carried-id e e w c,
  refl,
  refl,
  refl,
)
settle-events lib e (raised multiple_results) w st c = inl (
  close_event lib.message (raised multiple_results) (event_or w.event e),
  close_event-id lib.message (raised multiple_results) (event_or w.event e) ∙ carried-id e e w c,
  refl,
  refl,
  refl,
)

-- How a round of a running worker leaves the queue.
abbrev pub Progress : Library → Store → Store → Type 0
Progress lib st after =
    ((count is_open st.events ≡ 0) × (after ≡ st))
    ⊎ ((after.worker_runs ≡ true) × (suc (count is_open after.events) ≡ count is_open st.events))
    ⊎ IsStopped lib after

run_event-Progress :
    (lib : Library) (now : ℕ) (e : StripeEvent) (st : Store)
    → st.worker_runs ≡ true
    → IsKeyed st.events
    → next_event st.events ≡ some e
    → IsKeyed (run_event lib now e st).events × Progress lib st (run_event lib now e st)
unfolding run_event
run_event-Progress lib now e st runs k next =
    let event = lib.construct e.event_data in
    let w0 = work_of (taken_up e) st in
    let r : Outcome × Work = process now event w0 in
    let c : Carries (taken_up e) r.1 = process-Carries (taken_up e) w0 refl now event in
    elim (settle-events lib (taken_up e) r.0 r.1 st c) [
      | inl (e', same_id, closed, written, still) ↦
          rw (written, still)
            (
              put_event-IsKeyed e' st.events k,
              inr (inl (runs, count-put_event e e' st.events k next same_id closed)),
            )
      | inr (refused, is_out) ↦ rw is_out (
        put_event-IsKeyed (taken_up e) st.events k,
        inr (
            inr (record {
              ended = refl;
              in_hand =
                  put_event-AnyEvent _ e (taken_up e) st.events next refl
                    (refl, process_integrity w0 now event refused);
            })),
      )
    ]

-- A round with a pending event closes exactly one and goes on, or ends the worker at an invoice's
-- created event; one with none changes nothing. The events' ids stay unique.
pub worker_round-Progress :
    (lib : Library) (now : ℕ) (st : Store)
    → st.worker_runs ≡ true
    → IsKeyed st.events
    → IsKeyed (worker_round lib now st).events × Progress lib st (worker_round lib now st)
worker_round-Progress lib now st runs k = elim (Option-cases (next_event st.events)) [
  | inl idle ↦
      rw (worker_round-idle lib now st runs idle) (k, inl (next_event-idle st.events idle, refl))
  | inr (e, h) ↦
      rw (worker_round-takes lib now st runs h) (run_event-Progress lib now e st runs k h)
]

-- With no event arriving, as many rounds of a running worker as there are pending events leave none
-- pending and the worker running, or else the worker has ended with an invoice's created event in its
-- hands; if the events' ids are different.
pub worker_rounds-drain :
    (lib : Library) (now n : ℕ) (st : Store)
    → st.worker_runs ≡ true
    → IsKeyed st.events
    → count is_open st.events ≡ n
    → ((count is_open (worker_rounds lib now n st).events ≡ 0)
        × ((worker_rounds lib now n st).worker_runs ≡ true))
      ⊎ IsStopped lib (worker_rounds lib now n st)
unfolding worker_rounds
worker_rounds-drain lib now zero st runs k h = inl (h, runs)
worker_rounds-drain lib now (suc n) st runs k h =
    let (k', moved) = worker_round-Progress lib now st runs k in
    elim moved [
      | inl (none_left, _) ↦ absurd (omega arith)
      | inr (inl (still, closed)) ↦
          worker_rounds-drain lib now n (worker_round lib now st) still k' (omega arith)
      | inr (inr ended) ↦
          inr (rw (worker_rounds-ended lib now n (worker_round lib now st) ended.ended) ended)
    ]
