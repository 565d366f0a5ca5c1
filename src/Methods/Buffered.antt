-- ===== src/Methods/Buffered.antt =====
-- The methods that submit a new payload.
use uringio.Base.{ℕ, ◌%◌, ◌^◌, ℤ, ◌≡◌, refl, true, Option, none, some, List}
use uringio.Enums.{
  oneshot, Opcode, PayloadType, payload_linear, payload_iovec, payload_linear_and_iovec,
  payload_type_no_val,
}
use uringio.Timer.{TimeoutParams}
use uringio.Payload.{LinearBuffer, BufferPayload}
use uringio.Buffers.Heap.{Resource}
use uringio.Buffers.Free.{owned}
use uringio.Buffers.Create.{has_linear, usable_linear}
use uringio.Buffers.Create.Contract.{Reads}
use uringio.Ops.Files.Laws.{FileOp, submit_file}
use uringio.Methods.{Caller, Site, request_of}
use uringio.Methods.Rules.{Refused, Registered}

pub linear-of : (b : BufferPayload) → has_linear b ≡ true → (l : LinearBuffer) × (b.linear ≡ some l)
linear-of b h = go b.payload_type b.linear h
  where
    go :
        (t : PayloadType) (l : Option LinearBuffer)
        → usable_linear t l ≡ true
        → (k : LinearBuffer) × (l ≡ some k)
    go payload_linear (some l) h = (l, refl)
    go payload_linear none h = cc
    go payload_iovec l h = cc
    go payload_linear_and_iovec l h = cc
    go payload_type_no_val l h = cc

module _ (site : Site) (s : Caller) (rs : List Resource) where
  -- A future of `write` stands for one write of the data's memory, under a new request that holds
  -- the payload with the loan of the data.
  abbrev pub WriteEnded : Option (ℕ × ℤ × Option TimeoutParams) → Option ℕ → Caller → Type 0
  WriteEnded args none u = Refused s rs u
  WriteEnded args (some f) u =
      (p : ℕ) × (b : BufferPayload) × (l : LinearBuffer) × (obj : ℕ) × (offset : ℤ)
      × (t : TimeoutParams) × (args ≡ some (obj, offset, some t))
      × (u.payloads p ≡ some b)
      × (b.linear ≡ some l)
      × Reads site.host obj b
      × Registered s u rs (owned p b) (request_of site f (some p) oneshot Opcode.write) (λ idx.
        submit_file site.liburing (FileOp.write site.fd l.buffer (l.len % 2 ^ 32) offset) idx t)
