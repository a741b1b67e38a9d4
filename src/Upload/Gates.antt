-- ===== src/Upload/Gates.antt =====
-- Which call leads to which status of a job, and what a locked job refuses.
use typxen.Base.{ℕ, ◌≡◌, ◌≢◌, ◌⊎◌, true, Option, List, arith}
use typxen.Protocol.Types.{Sha256Provider}
use typxen.Protocol.Verify.{is_verified}
use typxen.Executor.Defs.{ExecutorError}
use typxen.Upload.Types.{
  UploadStatus, ready, countdown, executing, stopping, ok, HidReadiness, hid_ready, Upload,
  ChunkSession,
}
use typxen.Upload.Job.{
  begin, same_job, prepare_start, start_failed, mark_executing, request_stop, cancel,
  record_progress, mark_interrupted_reset, complete,
}
use typxen.Upload.Chunk.{chunk_finish}
use typxen.Upload.Finalize.{finalize}

-- A call of the interface that changes the upload; `chunk_begin` and `chunk_write` do not.
pub data Op (C D : Type 0) : Type 0 where
  begin_op : Option (List ℕ) → ℕ → Option (List ℕ) → C → Op C D
  chunk_op : ChunkSession → Op C D
  finalize_op : Option (List ℕ) → ℕ → Option (List ℕ) → C → Sha256Provider D → D → Op C D
  prepare_op : Option (List ℕ) → HidReadiness → Op C D
  start_failed_op executing_op stop_op reset_op : Op C D
  cancel_op : Option (List ℕ) → Op C D
  progress_op : ℕ → ℕ → ℕ → Op C D
  complete_op : ExecutorError → Op C D

module _ {C D : Type 0} where
  unfoldable pub advance : Op C D → Upload C → Upload C
  unfolding begin chunk_finish finalize prepare_start start_failed mark_executing request_stop
      cancel record_progress mark_interrupted_reset complete
  advance (begin_op job_id size sha256 c) u = (begin u job_id size sha256 c).0
  advance (chunk_op session) u = (chunk_finish u session).0
  advance (finalize_op job_id size sha256 c provider d) u =
      (finalize u job_id size sha256 c provider d).0
  advance (prepare_op job_id readiness) u = (prepare_start u job_id readiness).0
  advance start_failed_op u = (start_failed u).0
  advance executing_op u = (mark_executing u).0
  advance stop_op u = (request_stop u).0
  advance reset_op u = mark_interrupted_reset u
  advance (cancel_op job_id) u = (cancel u job_id).0
  advance (progress_op source done all) u = record_progress u source done all
  advance (complete_op e) u = complete u e

  -- The call and the upload before it, for each status that has a gate.
  abbrev pub Gate : UploadStatus → Op C D → Upload C → Type 0
  Gate ready op u =
      ((op ≡ start_failed_op) × (u.status ≡ countdown))
      ⊎ ((job_id : Option (List ℕ)) × (size : ℕ) × (sha256 : Option (List ℕ)) × (c : C)
          × (provider : Sha256Provider D) × (d : D) × (op
              ≡ finalize_op job_id size sha256 c provider d)
          × ((finalize u job_id size sha256 c provider d).1 ≡ ok))
  Gate countdown op u =
      (job_id : Option (List ℕ)) × (op ≡ prepare_op job_id hid_ready)
      × (u.status ≡ ready)
      × (same_job u job_id ≡ true)
      × (is_verified u.verified_schedule ≡ true)
  Gate executing op u = (op ≡ executing_op) × (u.status ≡ countdown)
  Gate stopping op u = (op ≡ stop_op) × ((u.status ≡ countdown) ⊎ (u.status ≡ executing))
  Gate _ op u = Unit

  -- A call that changes the status passes the gate of the status that it enters.
  pub advance-Gate :
      (op : Op C D) (u : Upload C)
      → (advance op u).status ≢ u.status
      → Gate (advance op u).status op u
  unfolding advance
  advance-Gate op u h = ground arith
