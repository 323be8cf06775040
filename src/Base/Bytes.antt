-- ===== src/Base/Bytes.antt =====
-- Byte slices of account data: reads and writes that panic out of bounds, as Rust's do.
use native.Mathlib.Nat.{zero-add, suc-add}
use protocol_core.Base.{
  ℕ, zero, suc, ◌+◌, ◌≤◌, ◌≡◌, refl, ap, ◌↔◌, Bool, true, false, ◌&&◌, [], ◌∷◌, ◌++◌, arith, length,
  take, drop, replicate, length-replicate, leb, ◌==◌, if◌then◌else◌, Result, ok, err, panic,
}
use protocol_core.Base.Words.{Bytes}

-- `==` of byte arrays.
unfoldable pub bytes_eq : Bytes → Bytes → Bool
bytes_eq [] [] = true
bytes_eq [] (b ∷ bs) = false
bytes_eq (a ∷ as') [] = false
bytes_eq (a ∷ as') (b ∷ bs) = a == b && bytes_eq as' bs

pub bytes_eq_iff : (a b : Bytes) → (bytes_eq a b ≡ true) ↔ (a ≡ b)
unfolding bytes_eq
bytes_eq_iff [] [] = ground arith
bytes_eq_iff [] (b ∷ bs) = ground arith
bytes_eq_iff (a ∷ as') [] = ground arith
bytes_eq_iff (a ∷ as') (b ∷ bs) = ground (arith, bytes_eq_iff as' bs)

pub bytes_eq_refl : (a : Bytes) → bytes_eq a a ≡ true
bytes_eq_refl a = (bytes_eq_iff a a).1 refl

-- The n bytes from place i on, and the same place overwritten.
unfoldable pub sub : Bytes → ℕ → ℕ → Bytes
sub d i n = take n (drop i d)

unfoldable pub put : Bytes → ℕ → Bytes → Bytes
put [] i bs = []
put (x ∷ d) zero [] = x ∷ d
put (x ∷ d) zero (b ∷ bs) = b ∷ put d zero bs
put (x ∷ d) (suc i) bs = x ∷ put d i bs

unfoldable pub nth : Bytes → ℕ → ℕ
nth [] i = 0
nth (x ∷ d) zero = x
nth (x ∷ d) (suc i) = nth d i

-- `data[i..i + n]`, `data[i]` and `data[i..i + bs.len()].copy_from_slice(bs)`.
abbrev pub slice : Bytes → ℕ → ℕ → Result Bytes
slice d i n = if leb (i + n) (length d) then ok (sub d i n) else err panic

abbrev pub index : Bytes → ℕ → Result ℕ
index d i = if leb (i + 1) (length d) then ok (nth d i) else err panic

abbrev pub write : Bytes → ℕ → Bytes → Result Bytes
write d i bs = if leb (i + length bs) (length d) then ok (put d i bs) else err panic

abbrev pub zeros : ℕ → Bytes
zeros n = replicate n 0

-- `AccountInfo::resize`: new bytes are zero.
unfoldable pub resize : Bytes → ℕ → Bytes
resize [] n = zeros n
resize (x ∷ d) zero = []
resize (x ∷ d) (suc n) = x ∷ resize d n

pub length-resize : (d : Bytes) (n : ℕ) → length (resize d n) ≡ n
unfolding resize
length-resize [] n = length-replicate n 0
length-resize (x ∷ d) zero = refl
length-resize (x ∷ d) (suc n) = ap suc (length-resize d n)

pub resize_self : (d : Bytes) → resize d (length d) ≡ d
unfolding resize
resize_self [] = refl
resize_self (x ∷ d) = ap (◌∷◌ x) (resize_self d)

pub resize_full : (d : Bytes) (n : ℕ) → length d ≡ n → resize d n ≡ d
resize_full d n e = rw (← e) (resize_self d)

pub resize_twice : (d : Bytes) (m n : ℕ) → length d ≤ m → resize (resize d m) n ≡ resize d n
unfolding resize
resize_twice [] zero n h = refl
resize_twice [] (suc m) zero h = refl
resize_twice [] (suc m) (suc n) h = ap (◌∷◌ 0) (resize_twice [] m n (omega arith))
resize_twice (x ∷ d) zero n h = absurd (omega arith)
resize_twice (x ∷ d) (suc m) zero h = refl
resize_twice (x ∷ d) (suc m) (suc n) h = ap (◌∷◌ x) (resize_twice d m n (omega arith))

pub length-put : (d : Bytes) (i : ℕ) (bs : Bytes) → length (put d i bs) ≡ length d
unfolding put
length-put [] i bs = refl
length-put (x ∷ d) zero [] = refl
length-put (x ∷ d) zero (b ∷ bs) = ap suc (length-put d zero bs)
length-put (x ∷ d) (suc i) bs = ap suc (length-put d i bs)

pub length-sub : (d : Bytes) (i n : ℕ) → i + n ≤ length d → length (sub d i n) ≡ n
unfolding sub
length-sub [] zero zero h = refl
length-sub [] zero (suc n) h = absurd (omega arith)
length-sub [] (suc i) n h = absurd (omega arith)
length-sub (x ∷ d) zero zero h = refl
length-sub (x ∷ d) zero (suc n) h = ap suc (length-sub d zero n (omega arith))
length-sub (x ∷ d) (suc i) n h = length-sub d i n (omega arith)

pub sub-put_self :
    (d : Bytes) (i : ℕ) (bs : Bytes) (n : ℕ)
    → length bs ≡ n
    → i + n ≤ length d
    → sub (put d i bs) i n ≡ bs
unfolding sub put
sub-put_self [] zero [] zero e h = refl
sub-put_self [] zero (b ∷ bs) zero e h = absurd (omega arith)
sub-put_self [] i bs (suc n) e h = absurd (omega arith)
sub-put_self [] (suc i) bs n e h = absurd (omega arith)
sub-put_self (x ∷ d) zero [] zero e h = refl
sub-put_self (x ∷ d) zero [] (suc n) e h = absurd (omega arith)
sub-put_self (x ∷ d) zero (b ∷ bs) zero e h = absurd (omega arith)
sub-put_self (x ∷ d) zero (b ∷ bs) (suc n) e h =
    ap (◌∷◌ b) (sub-put_self d zero bs n (omega arith) (omega arith))
sub-put_self (x ∷ d) (suc i) bs n e h = sub-put_self d i bs n e (omega arith)

-- A write leaves what lies before it or behind it.
pub sub-put_below :
    (d : Bytes) (i : ℕ) (bs : Bytes) (j n : ℕ) → j + n ≤ i → sub (put d i bs) j n ≡ sub d j n
unfolding sub put
sub-put_below [] i bs j n h = refl
sub-put_below (x ∷ d) zero [] j n h = refl
sub-put_below (x ∷ d) zero (b ∷ bs) zero zero h = refl
sub-put_below (x ∷ d) zero (b ∷ bs) zero (suc n) h = absurd (omega arith)
sub-put_below (x ∷ d) zero (b ∷ bs) (suc j) n h = absurd (omega arith)
sub-put_below (x ∷ d) (suc i) bs zero zero h = refl
sub-put_below (x ∷ d) (suc i) bs zero (suc n) h =
    ap (◌∷◌ x) (sub-put_below d i bs zero n (omega arith))
sub-put_below (x ∷ d) (suc i) bs (suc j) n h = sub-put_below d i bs j n (omega arith)

pub sub-put_above :
    (d : Bytes) (i : ℕ) (bs : Bytes) (j n : ℕ)
    → i + length bs ≤ j
    → sub (put d i bs) j n ≡ sub d j n
unfolding sub put
sub-put_above [] i bs j n h = refl
sub-put_above (x ∷ d) zero [] j n h = refl
sub-put_above (x ∷ d) zero (b ∷ bs) zero n h = absurd (omega arith)
sub-put_above (x ∷ d) zero (b ∷ bs) (suc j) n h = sub-put_above d zero bs j n (omega arith)
sub-put_above (x ∷ d) (suc i) bs zero n h = absurd (omega arith)
sub-put_above (x ∷ d) (suc i) bs (suc j) n h = sub-put_above d i bs j n (omega arith)

-- Growing keeps what was there.
pub sub-resize :
    (d : Bytes) (m j n : ℕ) → j + n ≤ length d → j + n ≤ m → sub (resize d m) j n ≡ sub d j n
unfolding sub resize
sub-resize [] m zero zero h k = refl
sub-resize [] m zero (suc n) h k = absurd (omega arith)
sub-resize [] m (suc j) n h k = absurd (omega arith)
sub-resize (x ∷ d) zero zero zero h k = refl
sub-resize (x ∷ d) zero zero (suc n) h k = absurd (omega arith)
sub-resize (x ∷ d) zero (suc j) n h k = absurd (omega arith)
sub-resize (x ∷ d) (suc m) zero zero h k = refl
sub-resize (x ∷ d) (suc m) zero (suc n) h k =
    ap (◌∷◌ x) (sub-resize d m zero n (omega arith) (omega arith))
sub-resize (x ∷ d) (suc m) (suc j) n h k = sub-resize d m j n (omega arith) (omega arith)

pub sub-append_head : (a b : Bytes) (n : ℕ) → length a ≡ n → sub (a ++ b) 0 n ≡ a
unfolding sub
sub-append_head [] b zero e = refl
sub-append_head [] b (suc n) e = absurd (omega arith)
sub-append_head (x ∷ a) b zero e = absurd (omega arith)
sub-append_head (x ∷ a) b (suc n) e = ap (◌∷◌ x) (sub-append_head a b n (omega arith))

pub sub-append_tail : (a b : Bytes) (i n : ℕ) → sub (a ++ b) (length a + i) n ≡ sub b i n
unfolding sub
sub-append_tail [] b i n = rw zero-add
sub-append_tail (x ∷ a) b i n = rw suc-add (sub-append_tail a b i n)

-- Behind the old end, a grown account reads as zero.
take-zeros : (m n : ℕ) → n ≤ m → take n (zeros m) ≡ zeros n
take-zeros m zero h = refl
take-zeros zero (suc n) h = absurd (omega arith)
take-zeros (suc m) (suc n) h = ap (◌∷◌ 0) (take-zeros m n (omega arith))

sub-zeros : (m j n : ℕ) → j + n ≤ m → sub (zeros m) j n ≡ zeros n
unfolding sub
sub-zeros m zero n h = take-zeros m n (omega arith)
sub-zeros zero (suc j) n h = absurd (omega arith)
sub-zeros (suc m) (suc j) n h = sub-zeros m j n (omega arith)

pub sub-resize-zeros :
    (d : Bytes) (m j n : ℕ) → length d ≤ j → j + n ≤ m → sub (resize d m) j n ≡ zeros n
unfolding resize sub
sub-resize-zeros [] m j n h k = sub-zeros m j n k
sub-resize-zeros (x ∷ d) zero zero n h k = absurd (omega arith)
sub-resize-zeros (x ∷ d) zero (suc j) n h k = absurd (omega arith)
sub-resize-zeros (x ∷ d) (suc m) zero n h k = absurd (omega arith)
sub-resize-zeros (x ∷ d) (suc m) (suc j) n h k =
    sub-resize-zeros d m j n (omega arith) (omega arith)
