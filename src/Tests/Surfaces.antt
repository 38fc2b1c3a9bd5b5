-- ===== src/Tests/Surfaces.antt =====
-- Runs of the surface of a terminal.
use harmotty.Prelude.{◌≡◌, refl, none, some, List, [], ◌∷◌, ◌++◌, Text, codes}
use harmotty.Bridge.Protocol.{BridgeMessage, web_to_native, channel_control}
use harmotty.Terminal.OutputBuffer
use harmotty.Surface.State.{new}
use harmotty.Surface.Controller.{
  Operation, attaching, detaching, capturing, timing_out, receiving, run,
}
use harmotty.Surface.Completions.{calls, asked}
use harmotty.Surface.Once.{run-detached}

abbrev snapshot_message : Text → BridgeMessage
snapshot_message payload = record {
  direction = web_to_native;
  channel = channel_control;
  kind = codes "snapshot";
  payload = payload;
}

-- The first request is answered, the second times out, the third is open when the surface goes.
abbrev happenings : List Operation
happenings =
    capturing (some 7)
    ∷ attaching (λ index. none)
    ∷ capturing (some 1)
    ∷ capturing (some 2)
    ∷ receiving 0 (snapshot_message (codes "1|screen"))
    ∷ timing_out 2
    ∷ capturing (some 1)
    ∷ []

run-detached_example :
    calls 1 (run (new (OutputBuffer.new 10)) (happenings ++ detaching ∷ [])).0 ≡ asked 1 happenings
run-detached_example = run-detached 1 (OutputBuffer.new 10) happenings

asked_run : asked 1 happenings ≡ 2
unfolding asked
asked_run = refl
