-- ===== src/Python/Float/Order.antt =====
-- The order of floats, as far as the decision plane needs it.
use optimaler_status.Base.{◌≡◌, refl, true, arith}
use optimaler_status.Python.Float.{Float, neg_inf, pos_inf, finite, lt, le}

pub lt-le_trans : (x y z : Float) → lt x y ≡ true → le y z ≡ true → lt x z ≡ true
unfolding lt le
lt-le_trans (finite a) (finite b) (finite c) h k = ground arith
lt-le_trans (finite a) (finite b) pos_inf h k = refl
lt-le_trans (finite a) pos_inf pos_inf h k = refl
lt-le_trans neg_inf (finite b) (finite c) h k = refl
lt-le_trans neg_inf (finite b) pos_inf h k = refl
lt-le_trans neg_inf pos_inf pos_inf h k = refl
lt-le_trans _ _ _ h k = ground arith

pub le-le_trans : (x y z : Float) → le x y ≡ true → le y z ≡ true → le x z ≡ true
unfolding lt le
le-le_trans (finite a) (finite b) (finite c) h k = ground arith
le-le_trans _ _ _ h k = ground arith
