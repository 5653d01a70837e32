-- ===== src/Infer/Schemes/Arity.antt =====
-- gen0-interp-rs/src/infer.rs: the arity that `check_tydef` records for a constructor.
use dacelo.Base.{ℕ, zero, suc, ◌+◌, ◌≤◌, ◌≡◌, refl, arith}
use dacelo.Base.Text.{Text}
use dacelo.Infer.{Tys, no_tys, one_more, app, Links, ok, bind}
use dacelo.Infer.Unify.{prune}
use dacelo.Infer.Schemes.{arrows_in, count_arrows}
use dacelo.Infer.Exprs.{count_tys}
use dacelo.Infer.TypeDefs.{ctor_type}

no_fuel : (n k : ℕ) → n + 2 ≤ k → k ≤ 1 → ⊥
no_fuel n k h l = omega arith

-- The type made for a constructor has as many arrows, for `count_arrows` and with enough fuel, as the
-- constructor has fields, whatever types these are.
pub count_arrows-ctor_type :
    (f : ℕ) (links : Links) (fields : Tys) (name : Text) (params : Tys)
    → count_tys fields + 2 ≤ f
    → count_arrows f links (ctor_type fields (app name params)) ≡ ok (count_tys fields)
unfolding count_arrows ctor_type count_tys prune arrows_in bind
count_arrows-ctor_type (suc (suc f)) links no_tys name params h = refl
count_arrows-ctor_type (suc (suc f)) links (one_more t ts) name params h =
    let e = count_arrows-ctor_type (suc f) links ts name params (omega arith) in rw e refl
count_arrows-ctor_type zero links fields name params h =
    absurd (no_fuel (count_tys fields) _ h (omega arith))
count_arrows-ctor_type (suc zero) links fields name params h =
    absurd (no_fuel (count_tys fields) _ h (omega arith))
