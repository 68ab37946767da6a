-- ===== src/Checks/Access.antt =====
-- Nonces, idempotency keys and the risk gate.
use quantumsentinel_web.Prelude.{
  ℕ, ◌≡◌, refl, true, false, none, some, List, [], ◌∷◌, arith, first_where, select_where,
}
use quantumsentinel_web.Money.{buy}
use quantumsentinel_web.Money.Float.{Float, of_decimal}
use quantumsentinel_web.Store.{MemStore, mem_set_nx, cleanup_mem}
use quantumsentinel_web.Store.Nonce.{MemOp, set_nx, look, write, apply_all, nonce_once}
use quantumsentinel_web.Security.{
  accepted, refused, is_token, all_chars, text_length, IdempotencyRecord, replay, same_text,
  get_completed_idempotency_response, reserve_idempotency, complete_idempotency,
}
use quantumsentinel_web.Security.Replay.{completed_replayed}
use quantumsentinel_web.Security.Risk.{
  user, asset, Switch, Exposure, assert_limits, assert_risk_gate, local_block, any_unknown, is_on,
  assert_risk_gate_async,
}
use quantumsentinel_web.Security.Risk.Gate.{Change, async_agrees}

abbrev empty : MemStore
empty = record { kv = []; nonces = []; kill_switches = [] }

abbrev between_uses : List MemOp
between_uses = set_nx 8 300 110 ∷ look 7 120 ∷ write 9 1 none 130 ∷ set_nx 7 300 140 ∷ []

nonce_once_example :
    (mem_set_nx 7 300 399 (apply_all between_uses (mem_set_nx 7 300 100 empty).0)).1 ≡ false
unfolding mem_set_nx cleanup_mem first_where select_where
nonce_once_example =
    nonce_once 7 300 100 empty between_uses 300 399 refl
      (omega arith, (omega arith, ((λ e. omega arith), (omega arith, tt)))) (omega arith)

-- The text "aaaaaaaaaaaaaaaa".
abbrev sixteen : List ℕ
sixteen = 97 ∷ 97 ∷ 97 ∷ 97 ∷ eight_more
  where
    eight_more : List ℕ
    eight_more = 97 ∷ 97 ∷ 97 ∷ 97 ∷ 97 ∷ 97 ∷ 97 ∷ 97 ∷ 97 ∷ 97 ∷ 97 ∷ 97 ∷ []

abbrev tail : List ℕ
tail = 97 ∷ 97 ∷ 97 ∷ 97 ∷ 97 ∷ 97 ∷ 97 ∷ []

abbrev reserved_row : IdempotencyRecord
reserved_row = record {
  user_id = 1;
  idempotency_key = 97 ∷ tail;
  request_hash = 55;
  response_json = none;
}

completed_replayed_example :
    let done = complete_idempotency (reserved_row ∷ []) 1 (some (97 ∷ tail)) 200 in
    (get_completed_idempotency_response true done 1 (some (97 ∷ tail)) 55 ≡ accepted (replay 200))
    × (reserve_idempotency true [] done 1 (some (97 ∷ tail)) 55 ≡ (done, accepted (replay 200)))
unfolding is_token all_chars text_length first_where same_text
completed_replayed_example =
    completed_replayed true [] (reserved_row ∷ []) 1 97 tail reserved_row 200 55 refl refl

abbrev units : ℕ → Float
units n = of_decimal record { coeff = n; exp = 0 }

abbrev exposure : Exposure
exposure = record {
  side = buy;
  quantity = units 1;
  price = units 40;
  held_quantity = units 0;
  account_equity = units 1000;
  current_gross_exposure = units 100;
}

abbrev fraction : Float
fraction = of_decimal record { coeff = 5; exp = 2 }

abbrev upper : ℕ → ℕ
upper n = n

abbrev switch : Switch
switch = record { scope = asset; identifier = some 3 }

abbrev changes : List Change
changes =
    record { scope = user; identifier = some 3; enabled = true }
    ∷ record { scope = user; identifier = some 3; enabled = false }
    ∷ record { scope = asset; identifier = some 4; enabled = false }
    ∷ []

-- The fraction of the equity is 50 dollars.
within_limits : assert_limits fraction exposure ≡ accepted tt
unfolding assert_limits of_decimal
within_limits = refl

too_large : assert_limits fraction (record exposure { price = units 51 }) ≡ refused 400
unfolding assert_limits of_decimal
too_large = refl

async_agrees_example :
    assert_risk_gate_async upper fraction 1 3 []
      (some (some false ∷ some false ∷ some true ∷ []))
      exposure
    ≡ some (
        assert_risk_gate upper fraction true 1 3 []
          (some (some false ∷ some false ∷ some true ∷ []))
          exposure)
unfolding any_unknown local_block is_on
async_agrees_example =
    async_agrees upper fraction true 1 3 [] (some (some false ∷ some false ∷ some true ∷ []))
      exposure (refl, refl)
