-- ===== src/Bridge/Words/RoundTrip.antt =====
-- What dynamicBytes reads where dynamic bytes were written, and where it panics.
use open_chain.Prelude.{
  ℕ, zero, suc, ◌+◌, ◌-◌, ◌*◌, ◌/◌, ◌%◌, ◌^◌, ◌≤◌, ◌<◌, ◌≡◌, refl, ap, ◌∙◌, sym, some, List, [],
  ◌∷◌, ◌++◌, Text, codes, length, take, drop, length-append, All, All-append, arith, trim_prefix,
  strip_prefix?,
}
use mathlib.Core.Path.{subst}
use open_chain.Prelude.Int.{pos, negsuc, wrap_i64}
use open_chain.Prelude.Hex.{hex_encode, hex_decode, hex_decode-hex_encode}
use open_chain.Bridge.Words.{big_endian, fill_bytes, bytes_at, dynamic_bytes, found, panicked}

abbrev pub AreBytes : List ℕ → Type 0
AreBytes = All (λ b. b < 256)

take-append : (xs ys : List ℕ) → take (length xs) (xs ++ ys) ≡ xs
take-append [] ys = refl
take-append (x ∷ xs) ys = ap (◌∷◌ x) (take-append xs ys)

drop-append : (xs ys : List ℕ) → drop (length xs) (xs ++ ys) ≡ ys
drop-append [] ys = refl
drop-append (x ∷ xs) ys = drop-append xs ys

length-fill_bytes : (n w : ℕ) → length (fill_bytes n w) ≡ n
unfolding fill_bytes
length-fill_bytes zero w = refl
length-fill_bytes (suc n) w =
    length-append (fill_bytes n (w / 256)) ((w % 256) ∷ [])
    ∙ omega (arith, length-fill_bytes n (w / 256))

fill_bytes-AreBytes : (n w : ℕ) → AreBytes (fill_bytes n w)
unfolding fill_bytes
fill_bytes-AreBytes zero w = tt
fill_bytes-AreBytes (suc n) w =
    All-append (λ b. b < 256) (fill_bytes n (w / 256)) ((w % 256) ∷ [])
      (fill_bytes-AreBytes n (w / 256)) (omega arith, tt)

big_endian-append :
    (acc : ℕ) (xs : List ℕ) (b : ℕ) → big_endian acc (xs ++ b ∷ []) ≡ big_endian acc xs * 256 + b
unfolding big_endian
big_endian-append acc [] b = refl
big_endian-append acc (x ∷ xs) b = big_endian-append (acc * 256 + x) xs b

-- The number fits into so many bytes.
abbrev Fits : ℕ → ℕ → Type 0
Fits zero w = w ≡ 0
Fits (suc n) w = Fits n (w / 256)

Fits-zero : (n : ℕ) → Fits n 0
Fits-zero zero = refl
Fits-zero (suc n) = Fits-zero n

Fits-word : (w : ℕ) → w ≤ 2 ^ 20 → Fits 32 w
Fits-word w h =
    let e : w / 256 / 256 / 256 ≡ 0 = omega arith in subst (Fits 29) (sym e) (Fits-zero 29)

big_endian-fill_bytes : (n w : ℕ) → Fits n w → big_endian 0 (fill_bytes n w) ≡ w
unfolding fill_bytes
big_endian-fill_bytes zero w h = unfold big_endian in sym h
big_endian-fill_bytes (suc n) w h =
    big_endian-append 0 (fill_bytes n (w / 256)) (w % 256)
    ∙ omega (arith, big_endian-fill_bytes n (w / 256) h)

wrap_small : (n : ℕ) → n < 2 ^ 63 → wrap_i64 n ≡ pos n
unfolding wrap_i64
wrap_small n h = ground arith

bytes_at_found :
    (decoded : List ℕ) (offset : ℕ) (value rest : List ℕ)
    → offset + 32 < 2 ^ 63
    → big_endian 0 (take 32 (drop offset decoded)) ≡ length value
    → drop (offset + 32) decoded ≡ value ++ rest
    → offset + 32 + length value ≤ length decoded
    → length value ≤ 2 ^ 20
    → bytes_at decoded offset ≡ found value
unfolding bytes_at
bytes_at_found decoded offset value rest h count left fits small =
    rw (wrap_small (offset + 32) h, count, left, take-append value rest) (ground arith)

trim_lem : (s : Text) → trim_prefix (codes "0x") (codes "0x" ++ s) ≡ s
unfolding trim_prefix strip_prefix?
trim_lem s = refl

drop-drop : (xs ys zs : List ℕ) → drop (length xs + length ys) (xs ++ (ys ++ zs)) ≡ zs
drop-drop [] ys zs =
    ap (λ k. drop k (ys ++ zs)) (let e : 0 + length ys ≡ length ys = omega arith in e)
    ∙ drop-append ys zs
drop-drop (x ∷ xs) ys zs =
    ap (λ k. drop k (x ∷ xs ++ (ys ++ zs)))
      (let e : suc (length xs) + length ys ≡ suc (length xs + length ys) = omega arith in e)
    ∙ drop-drop xs ys zs

-- Behind any bytes, a length word, the bytes that it counts and anything else.
pub laid_out : List ℕ → List ℕ → List ℕ → List ℕ
laid_out pre value rest = pre ++ (fill_bytes 32 (length value) ++ (value ++ rest))

laid_out-found :
    (pre value rest : List ℕ)
    → length pre + 32 < 2 ^ 63
    → length value ≤ 2 ^ 20
    → bytes_at (laid_out pre value rest) (length pre) ≡ found value
unfolding laid_out
laid_out-found pre value rest h small =
    let count_word = fill_bytes 32 (length value) in
    let n : length count_word ≡ 32 = length-fill_bytes 32 (length value) in
    let behind : take 32 (count_word ++ (value ++ rest)) ≡ count_word =
      ap (λ k. take k (count_word ++ (value ++ rest))) (sym n)
      ∙ take-append count_word (value ++ rest) in
    bytes_at_found (laid_out pre value rest) (length pre) value rest h
      (ap (λ l. big_endian 0 (take 32 l)) (drop-append pre (count_word ++ (value ++ rest)))
        ∙ ap (big_endian 0) behind
        ∙ big_endian-fill_bytes 32 (length value) (Fits-word (length value) small))
      (ap (λ k. drop (length pre + k) (laid_out pre value rest)) (sym n)
        ∙ drop-drop pre count_word (value ++ rest))
      (omega (
        arith,
        n,
        length-append pre (count_word ++ (value ++ rest)),
        length-append count_word (value ++ rest),
        length-append value rest,
      ))
      small

dynamic_bytes_lem :
    (value : Text) (decoded word : List ℕ)
    → hex_decode (trim_prefix (codes "0x") value) ≡ some decoded
    → length word ≡ 32
    → dynamic_bytes value word ≡ bytes_at decoded (big_endian 0 word)
unfolding dynamic_bytes
dynamic_bytes_lem value decoded word e n = rw (e, n, dynamic_bytes) refl

-- Dynamic bytes that an offset word points at, laid out with their length in front of them, at most
-- 2 ^ 20 of them, are read back from the hexadecimal text of the whole, whatever stands around them.
pub dynamic_bytes-laid_out :
    (pre value rest word : List ℕ)
    → AreBytes pre
    → AreBytes value
    → AreBytes rest
    → length word ≡ 32
    → big_endian 0 word ≡ length pre
    → length pre + 32 < 2 ^ 63
    → length value ≤ 2 ^ 20
    → dynamic_bytes (codes "0x" ++ hex_encode (laid_out pre value rest)) word ≡ found value
unfolding laid_out
dynamic_bytes-laid_out pre value rest word hp hv hr n points h small =
    let all_bytes : AreBytes (laid_out pre value rest) =
      All-append (λ b. b < 256) pre _ hp
        (All-append (λ b. b < 256) (fill_bytes 32 (length value)) _
          (fill_bytes-AreBytes 32 (length value)) (All-append (λ b. b < 256) value rest hv hr)) in
    dynamic_bytes_lem (codes "0x" ++ hex_encode (laid_out pre value rest)) (laid_out pre value rest)
      word
      (ap hex_decode (trim_lem (hex_encode (laid_out pre value rest)))
        ∙ hex_decode-hex_encode (laid_out pre value rest) all_bytes)
      n
    ∙ ap (bytes_at (laid_out pre value rest)) points
    ∙ laid_out-found pre value rest h small

wrap_large : (n : ℕ) → 2 ^ 63 ≤ n → n < 2 ^ 64 → wrap_i64 n ≡ negsuc (2 ^ 64 - n - 1)
unfolding wrap_i64
wrap_large n low high = ground arith

bytes_at_panics :
    (decoded : List ℕ) (offset : ℕ)
    → 2 ^ 63 ≤ offset + 32
    → offset < 2 ^ 63
    → bytes_at decoded offset ≡ panicked
unfolding bytes_at
bytes_at_panics decoded offset low high =
    rw (wrap_large (offset + 32) low (omega arith)) (ground arith)

-- An offset word among the last 32 numbers below 2 ^ 63 makes dynamicBytes panic, on any data that decodes.
pub dynamic_bytes_panics :
    (value : Text) (decoded word : List ℕ)
    → hex_decode (trim_prefix (codes "0x") value) ≡ some decoded
    → length word ≡ 32
    → 2 ^ 63 ≤ big_endian 0 word + 32
    → big_endian 0 word < 2 ^ 63
    → dynamic_bytes value word ≡ panicked
dynamic_bytes_panics value decoded word e n low high =
    dynamic_bytes_lem value decoded word e n ∙ bytes_at_panics decoded (big_endian 0 word) low high
