-- ===== src/Emsort/Less.antt =====
-- BytesLess orders byte slices.
use sialite.Base.{
  ◌≡◌, refl, ap, ◌∙◌, Bool, true, false, Ordering, Bytes, bytes_compare, compare-eq→eq,
  compare-lt→gt, compare-gt→lt, compare-lt_trans, arith,
}
use sialite.Emsort.{bytes_less}
use sialite.Emsort.Order.{IsOrder}

less→lt : (a b : Bytes) → bytes_less a b ≡ true → bytes_compare a b ≡ Ordering.lt
unfolding bytes_less
less→lt a b h = ground arith

not_lt : (a b : Bytes) → bytes_compare a b ≡ Ordering.gt → bytes_less a b ≡ false
unfolding bytes_less
not_lt a b h = rw (bytes_less, h) refl

trans_cases :
    (x y z : Bytes) (c : Ordering) (d : Bool)
    → bytes_compare z y ≡ c
    → bytes_less z x ≡ d
    → bytes_less y x ≡ false
    → bytes_less z y ≡ false
    → bytes_less z x ≡ false
unfolding bytes_less
trans_cases x y z c false e f p q = f
trans_cases x y z Ordering.lt true e f p q = ground arith
trans_cases x y z Ordering.eq true e f p q = ap (λ w. bytes_less w x) (compare-eq→eq z y e) ∙ p
trans_cases x y z Ordering.gt true e f p q =
    ground (arith, compare-lt_trans y z x (compare-gt→lt z y e) (less→lt z x f))

pub bytes_less-IsOrder : IsOrder bytes_less
bytes_less-IsOrder = record {
  asym = λ x y h. not_lt y x (compare-lt→gt x y (less→lt x y h));
  trans = λ x y z p q. trans_cases x y z (bytes_compare z y) (bytes_less z x) refl refl p q;
}
