-- ===== src/Message/WriteQueue/Tests.antt =====
-- Two writers on a queue of one slot.
use kergit_server.Base.{ℕ, ◌≡◌, refl, List, [], ◌∷◌, arith}
use kergit_server.Message.WriteQueue.{
  Step, run, start, step, init, reserve_slot, push, nth, without, try_pop, settle,
}
use kergit_server.Message.WriteQueue.Bounds.{IsBounded, interleaved-IsBounded}

abbrev steps : List (Step ℕ)
steps = Step.reserves 7 ∷ Step.reserves 8 ∷ Step.pushes 0 ∷ Step.removes ∷ Step.settles ∷ []

only_first : (run steps (start 1)).delivered ≡ 7 ∷ []
unfolding run start step init reserve_slot push nth without try_pop settle
only_first = refl

interleaved-IsBounded_example : IsBounded 1 (run steps (start 1))
interleaved-IsBounded_example = interleaved-IsBounded 1 (omega arith) (omega arith) steps
