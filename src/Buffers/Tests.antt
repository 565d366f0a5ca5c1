-- ===== src/Buffers/Tests.antt =====
-- The buffers of requests at concrete hosts.
use uringio.Base.{
  ℕ, ◌+◌, ◌*◌, ◌≡◌, refl, pos, true, false, none, some, [], ◌∷◌, length, ltb, if◌then◌else◌,
}
use uringio.Enums.{payload_runtime}
use uringio.Payload.{BufferPayload}
use uringio.Buffers.Heap.{block, got, back, refused, Heap, Host, ◌>>=◌}
use uringio.Buffers.Rules.{Has, After, Gives}
use uringio.Buffers.Free.{free_buffer_payload}
use uringio.Buffers.Free.Laws.{free_buffer_payload-Gives}
use uringio.Buffers.Linear.{create_linear_buffers}
use uringio.Buffers.Create.{zeroed, create_buffer_payload_from_data, PyBuffer}
use uringio.Buffers.Create.Freed.{free_answer, Ended, create_buffer_payload_from_data-free}

-- A host with room for `n` steps: a block is at ten times the number of steps before it, object 7
-- has the items 70 and 71, and every object has three bytes, at ten times its number.
abbrev host : ℕ → Host
host n = record {
  malloc = λ b steps. if ltb (length steps) n then some (10 * length steps) else none;
  get_item = λ obj i steps. some (10 * obj + i);
  fast = λ obj steps. some (obj, 70 ∷ 71 ∷ []);
  get_buffer = λ obj steps. some (record { buf = 10 * obj; len = 3 });
  uninitialised = zeroed;
}

abbrev start : Heap
start = record { steps = []; error = false }

start-Has : Has [] false start
start-Has = record { owned = λ w. refl; raised = refl }

-- The third of three blocks is refused: both others are freed, and an exception is set.
create_linear_buffers_refused :
    create_linear_buffers (host 2) (pos 2) (pos 8) zeroed start
    ≡ some (
      (none, zeroed),
      record {
        steps = back (block 0) ∷ back (block 10) ∷ refused ∷ got (block 10) ∷ got (block 0) ∷ [];
        error = true;
      },
    )
unfolding create_linear_buffers
create_linear_buffers_refused = refl

-- No buffer at all: the write into `buffers->views` is outside the array.
create_linear_buffers_empty : create_linear_buffers (host 9) (pos 0) (pos 8) zeroed start ≡ none
unfolding create_linear_buffers
create_linear_buffers_empty = refl

-- Two buffers of eight bytes, in an array at 30.
abbrev payload : BufferPayload
payload = record zeroed {
  payload_origin = payload_runtime;
  amount = pos 2;
  linear =
      some (record { buffer = 10; len = 8; others = (20, 8) ∷ []; views = none; address = 30 });
}

free_buffer_payload-Gives_example :
    Gives (block 10 ∷ block 20 ∷ block 30 ∷ block 5 ∷ []) (free_buffer_payload 5 payload false)
free_buffer_payload-Gives_example = free_buffer_payload-Gives 5 payload false refl ((refl, tt), tt)

create_buffer_payload_from_data-free_example :
    After
      ((create_buffer_payload_from_data (host 9) 7 >>= free_answer false) start)
      (Ended [] false)
create_buffer_payload_from_data-free_example =
    create_buffer_payload_from_data-free (host 9) 7 false start [] false start-Has

-- Two iovecs of 16 bytes each.
abbrev raw : PyBuffer
raw = record {
  object = 7;
  len = 32;
  sizeof_iovec = 16;
  iovec_at = λ i. record { iov_base = 100 * i; iov_len = 4 };
}
