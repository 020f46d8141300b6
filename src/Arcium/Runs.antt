-- ===== src/Arcium/Runs.antt =====
-- What happens to the state of a request: the request handlers start it, and a callback validates
-- and completes it.
use vela_protocol.Base.{
  ℕ, true, false, inl, inr, sym, ◌≡◌, ◌+◌, arith, List, [], ◌∷◌, All, if◌then◌else◌,
}
use vela_protocol.Base.Int.{ℤ}
use vela_protocol.Errors.{Result, ok, Result-cases, ◌>>=◌}
use vela_protocol.Arcium.Request.{
  ArciumRequestStatus, ArciumRequestFlow, ArciumRequestState, StartArciumRequestArgs, eq_flow,
  is_pending, is_zero, start_arcium_request, validate_pending_arcium_request,
  complete_arcium_request,
}

-- `answer` is a callback: the mandate, the flow and the subject
-- that it is for, and its time.
pub data RequestEvent : Type 0 where
  start : StartArciumRequestArgs → RequestEvent
  answer : (mandate : ℕ) → ArciumRequestFlow → (subject : ℕ) → ℤ → RequestEvent

-- A callback validates the request, whose offset it then checks with code of Arcium, and completes it.
unfoldable pub step_request : ArciumRequestState → RequestEvent → Result ArciumRequestState
step_request r (RequestEvent.start args) = start_arcium_request r args
step_request r (RequestEvent.answer mandate flow subject now) = do
  computation_offset ← validate_pending_arcium_request r mandate flow subject
  complete_arcium_request r now

unfoldable pub run_requests : ArciumRequestState → List RequestEvent → Result ArciumRequestState
run_requests r [] = ok r
run_requests r (event ∷ events) = do next ← step_request r event; run_requests next events

abbrev pub starts : List RequestEvent → ℕ
starts [] = 0
starts (RequestEvent.start args ∷ events) = 1 + starts events
starts (RequestEvent.answer m f s t ∷ events) = starts events

abbrev pub answers : List RequestEvent → ℕ
answers [] = 0
answers (RequestEvent.start args ∷ events) = answers events
answers (RequestEvent.answer m f s t ∷ events) = 1 + answers events

-- One, if the request waits for an answer.
abbrev pub open_requests : ArciumRequestState → ℕ
open_requests r = if is_pending r.status then 1 else 0

-- The clock of a start is not zero.
abbrev pub AfterZero : RequestEvent → Type 0
AfterZero (RequestEvent.start args) = is_zero args.now ≡ false
AfterZero (RequestEvent.answer m f s t) = Unit

-- Every answer is for what the last start, or the request before it, asked.
abbrev pub Answers : (mandate : ℕ) → ArciumRequestFlow → (subject : ℕ) → List RequestEvent → Type 0
Answers mandate flow subject [] = Unit
Answers mandate flow subject (RequestEvent.start args ∷ events) =
    Answers args.mandate args.flow args.subject events
Answers mandate flow subject (RequestEvent.answer m f s t ∷ events) =
    ((m ≡ mandate) × (f ≡ flow) × (s ≡ subject)) × Answers mandate flow subject events

eq_flow-same : (a b : ArciumRequestFlow) → eq_flow a b ≡ true → b ≡ a
eq_flow-same a b h = ground arith

-- A start that succeeds found nothing open.
start-opens :
    (r next : ArciumRequestState) (args : StartArciumRequestArgs)
    → step_request r (RequestEvent.start args) ≡ ok next
    → is_zero r.created_at ≡ false
    → (open_requests r ≡ 0)
      × (open_requests next ≡ 1)
      × (next.created_at ≡ args.now)
      × (next.mandate ≡ args.mandate)
      × (next.flow ≡ args.flow)
      × (next.subject ≡ args.subject)
unfolding step_request start_arcium_request
start-opens r next args h created =
    (ground arith, ground arith, ground arith, ground arith, ground arith, ground arith)

answer-closes :
    (r next : ArciumRequestState) (m : ℕ) (f : ArciumRequestFlow) (s : ℕ) (t : ℤ)
    → step_request r (RequestEvent.answer m f s t) ≡ ok next
    → (next ≡ record r { status = ArciumRequestStatus.completed; completed_at = t })
      × (open_requests r ≡ 1)
      × (m ≡ r.mandate)
      × (f ≡ r.flow)
      × (s ≡ r.subject)
unfolding step_request validate_pending_arcium_request complete_arcium_request
answer-closes r next m f s t h =
    (ground arith, ground arith, ground arith, eq_flow-same r.flow f (ground arith), ground arith)

-- Over any run of starts and answers that succeeds on a request that was started before, with no
-- start at time zero, starts and answers alternate: with the request that was open at the beginning
-- and the one that is open at the end, there are as many starts as answers, and each answer is for
-- the mandate, flow and subject of the last start.
pub run_requests-Answers :
    (r left : ArciumRequestState) (events : List RequestEvent)
    → run_requests r events ≡ ok left
    → is_zero r.created_at ≡ false
    → All AfterZero events
    → (open_requests r + starts events ≡ answers events + open_requests left)
      × Answers r.mandate r.flow r.subject events
unfolding run_requests
run_requests-Answers r left [] h created after = (ground arith, tt)
run_requests-Answers r left (RequestEvent.start args ∷ events) h created (now, after) =
    elim (Result-cases (step_request r (RequestEvent.start args))) [
      | inr bad ↦ absurd (ground arith)
      | inl (next, e) ↦
          let (none_open, now_open, at, mandate, flow, subject) =
            start-opens r next args e created in
          let started : is_zero next.created_at ≡ false = rw at now in
          let runs : run_requests next events ≡ ok left = ground arith in
          let (sums, rest) = run_requests-Answers next left events runs started after in
          let asked : Answers args.mandate args.flow args.subject events =
            rw (sym mandate) (rw (sym flow) (rw (sym subject) rest)) in
          (omega arith, asked)
    ]
run_requests-Answers r left (RequestEvent.answer m f s t ∷ events) h created (now, after) =
    elim (Result-cases (step_request r (RequestEvent.answer m f s t))) [
      | inr bad ↦ absurd (ground arith)
      | inl (next, e) ↦
          let (same, was, mandate, flow, subject) = answer-closes r next m f s t e in
          let runs : run_requests
                (record r { status = ArciumRequestStatus.completed; completed_at = t }) events
              ≡ ok left =
            ground arith in
          let (sums, rest) =
            run_requests-Answers
              (record r { status = ArciumRequestStatus.completed; completed_at = t }) left events
              runs created after in
          (omega arith, ((mandate, flow, subject), rest))
    ]
