-- ===== src/Examples/Reconstruct.antt =====
-- A pool that was written in a mapping at 1000 and is mapped at 5000.
use arthas.Prelude.{◌≡◌, refl, pos, ◌==◌, if◌then◌else◌, none, some, List, [], ◌∷◌, arith}
use arthas.Reactor.Types.{CheckpointData}
use arthas.Reactor.SeqLog.{concat}
use arthas.Reactor.Platform.{returned}
use arthas.Reactor.Reconstruct.{PoolNode, Pool, libpmem, log, reconstruct_checkpoint}
use arthas.Reactor.Reconstruct.Chains.{Cell, IsFitting}
use arthas.Reactor.Reconstruct.Whole.{IsWritten, IsRead, reconstruct_checkpoint-IsRead}

abbrev variable : CheckpointData
variable = record {
  address = 0;
  offset = 0;
  content = 1400 ∷ 1450 ∷ 0 ∷ [];
  size = 8 ∷ 8 ∷ 0 ∷ [];
  version = pos 1;
  data_type = pos 0;
  sequence_number = pos 1 ∷ pos 2 ∷ pos 0 ∷ [];
  old_checkpoint_entry = 0;
  new_checkpoint_entry = 0;
  free_flag = pos 0;
  tx_id = pos 1 ∷ pos 1 ∷ pos 0 ∷ [];
}

abbrev front : PoolNode
front = record { offset = 16; c_data = variable; next = 1300 }

abbrev back : PoolNode
back = record { offset = 32; c_data = variable; next = 0 }

abbrev chains : List (List Cell)
chains = [] ∷ ((200, front) ∷ (300, back) ∷ []) ∷ []

abbrev pool : Pool
pool = record {
  old_pool = 1000;
  size = 2;
  variable_count = pos 2;
  list = 1100;
  slots = λ a. if a == 5100 then some 0 else (if a == 5108 then some 1200 else none);
  nodes = λ a. if a == 5200 then some front else (if a == 5300 then some back else none);
}

front-IsFitting : IsFitting 1000 5000 (200, front)
front-IsFitting = record {
  in_old = omega arith;
  in_new = omega arith;
  past_old = omega arith;
  past_new = omega arith;
  slots = refl;
}

back-IsFitting : IsFitting 1000 5000 (300, back)
back-IsFitting = record {
  in_old = omega arith;
  in_new = omega arith;
  past_old = omega arith;
  past_new = omega arith;
  slots = refl;
}

pool-IsWritten : IsWritten 4 5000 100 chains pool
unfolding concat
pool-IsWritten = record {
  counted = refl;
  fits_int = omega arith;
  list_at = refl;
  in_old = omega arith;
  in_new = omega arith;
  fits = ((omega arith, tt), ((omega arith, (front-IsFitting, (back-IsFitting, tt))), tt));
  apart = (((λ e. omega (arith, e)), tt), (tt, tt));
  linked = ((0, refl, refl), ((1200, refl, (refl, refl, (refl, refl, refl))), tt));
}

reconstruct_checkpoint-IsRead_example :
    (pool' : Pool) × (reconstruct_checkpoint 4 libpmem (some (5000, pool)) ≡ returned (log pool'))
    × IsRead 5000 100 chains pool pool'
reconstruct_checkpoint-IsRead_example =
    reconstruct_checkpoint-IsRead libpmem 4 5000 100 chains pool (λ e. cc) pool-IsWritten
