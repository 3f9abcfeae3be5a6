-- ===== src/Prelude/Bytes.antt =====
-- The bytes that a cut text has.
use Prim.Native.Nat.{ℕ, ◌-◌, ◌≤◌, compare, Ordering}
use Prim.Native.Char.{Char, len_utf8}
use Prim.Native.String.{String, fits}
use Prim.Native.String.len
use Prim.Native.String.slice
use mathlib.Core.Path.{◌≡◌, refl}
use native.Mathlib.Omega.{arith}
use photinus.Prelude.Scan.{byte_length, take_bytes}

len-fits :
    (c : Char) (rest : String) (n : ℕ) (o : Ordering)
    → compare (len_utf8 c) n ≡ o
    → byte_length rest ≤ n - len_utf8 c
    → byte_length (fits o c rest) ≤ n
len-fits c rest n Ordering.lt e h = rw (len.cons c rest) (ground (arith, e, h))
len-fits c rest n Ordering.eq e h = rw (len.cons c rest) (ground (arith, e, h))
len-fits c rest n Ordering.gt e h = rw len.nil (omega arith)

-- `s[:n]` has n bytes at most.
pub byte_length-take_bytes : (n : ℕ) (s : String) → byte_length (take_bytes n s) ≤ n
byte_length-take_bytes n String.[] = rw (slice.nil 0 n, len.nil) (omega arith)
byte_length-take_bytes n (String.◌∷◌ c s) = rw (slice.cons-zero c s n) (
    len-fits c (take_bytes (n - len_utf8 c) s) n (compare (len_utf8 c) n) refl
      (byte_length-take_bytes (n - len_utf8 c) s))
