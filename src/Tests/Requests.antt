-- ===== src/Tests/Requests.antt =====
-- A request that is started, answered and started again.
use vela_protocol.Base.{◌≡◌, refl, ◌+◌, List, [], ◌∷◌}
use vela_protocol.Base.Int.{pos}
use vela_protocol.Errors.{ok}
use vela_protocol.Arcium.Request.{
  ArciumRequestFlow, ArciumRequestStatus, ArciumRequestState, StartArciumRequestArgs,
  start_arcium_request, validate_pending_arcium_request, complete_arcium_request,
}
use vela_protocol.Arcium.Runs.{
  RequestEvent, step_request, run_requests, starts, answers, open_requests, Answers,
  run_requests-Answers,
}

abbrev answered : ArciumRequestState
answered = record {
  mandate = 40;
  flow = ArciumRequestFlow.validation;
  subject = 41;
  computation_offset = 5;
  request_nonce = 1;
  status = ArciumRequestStatus.completed;
  created_at = pos 100;
  completed_at = pos 110;
  bump = 255;
  version = 1;
}

abbrev asking : StartArciumRequestArgs
asking = record {
  mandate = 40;
  flow = ArciumRequestFlow.validation;
  subject = 42;
  computation_offset = 6;
  request_nonce = 2;
  bump = 255;
  now = pos 200;
}

abbrev events : List RequestEvent
events =
    RequestEvent.start asking
    ∷ RequestEvent.answer 40 ArciumRequestFlow.validation 42 (pos 210)
    ∷ RequestEvent.start asking
    ∷ []

abbrev asked_again : ArciumRequestState
asked_again = record {
  mandate = 40;
  flow = ArciumRequestFlow.validation;
  subject = 42;
  computation_offset = 6;
  request_nonce = 2;
  status = ArciumRequestStatus.pending;
  created_at = pos 200;
  completed_at = pos 0;
  bump = 255;
  version = 1;
}

events_run : run_requests answered events ≡ ok asked_again
unfolding run_requests step_request start_arcium_request validate_pending_arcium_request
    complete_arcium_request
events_run = refl

run_requests-Answers_example :
    (open_requests answered + starts events ≡ answers events + open_requests asked_again)
    × Answers 40 ArciumRequestFlow.validation 41 events
run_requests-Answers_example =
    run_requests-Answers answered asked_again events events_run refl (refl, (tt, (refl, tt)))
