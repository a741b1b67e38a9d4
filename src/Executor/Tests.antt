-- ===== src/Executor/Tests.antt =====
-- A run of a small schedule with callbacks that all succeed, and one that is stopped.
use typxen.Base.{ℕ, ◌+◌, refl, true, some, [], ltb}
use typxen.Protocol.Types.{esp32_cam_limits, VerifiedSchedule}
use typxen.Protocol.Verify.{verify}
use typxen.Protocol.Reading.{IsExecutable, verify-IsExecutable}
use typxen.Protocol.Sample.{image_reader, fixed_sha256, image_reader-GivesBytes, image-accepted}
use typxen.Executor.Defs.{ExecutorIo, World, run}
use typxen.Executor.Log.{typed}
use typxen.Executor.Keys.{Ran, run-Ran}
use typxen.Executor.Reads.{Accepts, run-Accepts}

-- The context counts the polls; the stop comes with the poll of the given number.
abbrev io_until : ℕ → ExecutorIo ℕ
io_until last = record {
  now_us = λ c. (c, c);
  wait_us = λ delay c. (true, c);
  key_down = λ m k c. (true, c);
  release_all = λ c. (true, c);
  stop_requested = λ c. (ltb last c, c + 1);
  progress = λ i j k c. c;
  terminal = λ s e p c. c;
}

abbrev idle : World ℕ
idle = record { context = 0; log = [] }

abbrev schedule : VerifiedSchedule
schedule = (verify image_reader esp32_cam_limits (fixed_sha256 7) 0).1

run-Ran_example :
    let (e, w') = run (some (io_until 9)) schedule idle in Ran e schedule (typed w'.log) w'.log
run-Ran_example = run-Ran (io_until 9) schedule idle refl

schedule-IsExecutable : IsExecutable schedule
schedule-IsExecutable =
    verify-IsExecutable image_reader esp32_cam_limits (fixed_sha256 7) 0 image_reader-GivesBytes
      image-accepted

run-Accepts_example : Accepts (run (some (io_until 9)) schedule idle).0
run-Accepts_example = run-Accepts (io_until 9) schedule idle schedule-IsExecutable
