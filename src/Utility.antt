-- ===== src/Utility.antt =====
-- src/utility.hpp and src/Logger.cpp: helpers for vectors and numbers, and the level of the log.
use mavtables.Prelude.{
  ℕ, zero, suc, ◌*◌, ◌/◌, ◌^◌, List, [], ◌∷◌, ◌++◌, Bytes, codes, ltb, length, if◌then◌else◌,
}
use Prim.Native.Nat.{bit_and}

-- `append`: the vector, and where the iterator points. The source is emptied if it is moved from.
module _ {ℓ} {A : Type ℓ} where
  unfoldable pub append : List A → List A → List A × ℕ
  append [] source = (source, 0)
  append (x ∷ dest) source = ((x ∷ dest) ++ source, length (x ∷ dest))

  unfoldable pub append_moved : List A → List A → List A × ℕ × List A
  append_moved [] source = (source, 0, [])
  append_moved (x ∷ dest) source = ((x ∷ dest) ++ source, length (x ∷ dest), [])

  -- `operator<<`, with what it prints of an element.
  unfoldable pub print_tail : (A → Bytes) → List A → Bytes
  print_tail print [] = codes "]"
  print_tail print (x ∷ xs) = codes ", " ++ (print x ++ print_tail print xs)

  unfoldable pub print_vector : (A → Bytes) → List A → Bytes
  unfolding print_tail
  print_vector print [] = codes "[]"
  print_vector print (x ∷ xs) = codes "[" ++ (print x ++ print_tail print xs)

-- `n[i] = (number >> i * 8) & 0xFF`, from the byte `i` on.
unfoldable pub bytes_from : ℕ → ℕ → ℕ → Bytes
bytes_from zero i number = []
bytes_from (suc n) i number = bit_and (number / 2 ^ (i * 8)) 0xff ∷ bytes_from n (suc i) number

-- `to_bytes` of an unsigned number of `size` bytes.
unfoldable pub to_bytes : ℕ → ℕ → Bytes
unfolding bytes_from
to_bytes size number = bytes_from size 0 number

-- `Logger`: the level, and the messages that are written, without their time stamps.
pub record Logger : Type 0 where
  pub level : ℕ
  pub written : List Bytes

unfoldable pub log : ℕ → Bytes → Logger → Logger
log level message l =
    let corrected : ℕ = if ltb level 1 then 1 else level in
    if ltb l.level corrected then l else record l { written = l.written ++ message ∷ [] }

unfoldable pub log_default : Bytes → Logger → Logger
unfolding log
log_default message l = log 1 message l

unfoldable pub set_level : ℕ → Logger → Logger
set_level level l = record l { level = level }
