-- ===== src/Tests/Buffers.antt =====
-- Buffers of server/src/libgen/libgenBuffer.h at work.
use ozonebase.Prelude.{◌≡◌, refl, false, List, [], ◌∷◌, arith}
use ozonebase.Libgen.Outcome.{ok}
use ozonebase.Libgen.Buffer.{Buffer, contents}
use ozonebase.Libgen.Buffer.Room.{IsValid}
use ozonebase.Libgen.Buffer.Append.{Holds}
use ozonebase.Libgen.Buffer.Resize.{resized}
use ozonebase.Libgen.Buffer.Sequence.{
  Op, appends, inserts, consumes, shrinks, run, view_all, run-view_all,
}

-- Five bytes allocated, of which the second to fourth are in use.
abbrev sample : Buffer
sample = record {
  storage = 9 ∷ 1 ∷ 2 ∷ 3 ∷ 0 ∷ [];
  allocation = 5;
  size = 3;
  head = 1;
  tail = 4;
  adopted = false;
}

sample-IsValid : IsValid sample
sample-IsValid = omega arith

abbrev calls : List Op
calls = appends (4 ∷ 5 ∷ []) ∷ consumes 2 ∷ inserts (7 ∷ []) ∷ shrinks 1 ∷ []

calls_view : view_all (contents sample) calls ≡ 7 ∷ 3 ∷ 4 ∷ []
unfolding view_all
calls_view = refl

run-view_all_example :
    (b : Buffer) × (run sample calls ≡ ok b) × Holds b (view_all (contents sample) calls)
run-view_all_example = run-view_all sample calls sample-IsValid refl (omega arith)

-- Six bytes were asked for, and eight are there.
resized_example : resized sample 6 ≡ 8
resized_example = refl

-- One byte more was wanted after moving on from the start of an allocation that is full.
abbrev moved_on : Buffer
moved_on = record sample { size = 4; head = 1; tail = 5 }
