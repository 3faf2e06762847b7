-- ===== src/Agent/Progress.antt =====
-- The answer to one chunk of an upload: the agent's process ends on a total of zero chunks.
use lokifix.Prelude.Int.{ℤ, pos, negsuc}
use lokifix.Prelude.Int64.{quotient, magnitude}
use lokifix.World.{World, ok, panic}
use lokifix.Protocol.Params.{FileUploadChunkParams}
use lokifix.Fileops.Transfer.{upload_chunk}
use lokifix.Agent.Handlers.{handle_file_upload_chunk, report_chunk, percentage}
use lokifix.Prelude.{zero, suc, ◌+◌, ◌≡◌, refl, ◌↔◌, false, Option, none, some, arith, ◌==◌}

quotient-none : (a b : ℤ) → (quotient a b ≡ none) ↔ (b ≡ pos 0)
unfolding quotient magnitude
quotient-none a (pos zero) = (λ h. refl, λ h. refl)
quotient-none a (pos (suc n)) = (
  λ h.
      let some_chunks : (suc n == 0) ≡ false = ground arith in absurd (ground (arith, some_chunks)),
  λ h. absurd (cc h),
)
quotient-none a (negsuc n) = (
  λ h.
      let some_chunks : (n + 1 == 0) ≡ false = ground arith in absurd (ground (arith, some_chunks)),
  λ h. absurd (cc h),
)

pub percentage-none : (p : FileUploadChunkParams) → (percentage p ≡ none) ↔ (p.total_chunks ≡ pos 0)
unfolding percentage
percentage-none p = quotient-none _ p.total_chunks

report_chunk_iff :
    (p : FileUploadChunkParams) (w : World) (o : Option ℤ)
    → percentage p ≡ o
    → (((report_chunk p (w, ok tt)).1 ≡ panic) ↔ (p.total_chunks ≡ pos 0))
      × ((report_chunk p (w, ok tt)).0 ≡ w)
unfolding report_chunk
report_chunk_iff p w none e = rw (report_chunk, e) ((λ h. (percentage-none p).0 e, λ h. refl), refl)
report_chunk_iff p w (some pct) e =
    rw (report_chunk, e) ((λ h. absurd (cc h), λ h. absurd (cc (e, (percentage-none p).1 h))), refl)

-- Once a chunk has been stored, the handler panics exactly if the request says that there are zero
-- chunks; the chunk stays stored in either case.
pub handle_file_upload_chunk_iff :
    (p : FileUploadChunkParams) (w w' : World)
    → upload_chunk p.path p.content_base64 p.chunk_index p.overwrite w ≡ (w', ok tt)
    → (((handle_file_upload_chunk p w).1 ≡ panic) ↔ (p.total_chunks ≡ pos 0))
      × ((handle_file_upload_chunk p w).0 ≡ w')
unfolding handle_file_upload_chunk
handle_file_upload_chunk_iff p w w' h = rw h (report_chunk_iff p w' (percentage p) refl)
