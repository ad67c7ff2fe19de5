-- ===== src/Renderutil/Glyphs/Write.antt =====
-- Two copies behind each other, and what stands in memory then.
use xcb_util.Prelude.{
  ℕ, zero, suc, ◌+◌, ◌-◌, ◌≤◌, ◌≡◌, sym, ap, List, [], ◌∷◌, ◌++◌, length, length-append, take,
  take-nil, drop, done, arith,
}
use mathlib.Core.List.{append_assoc}
use xcb_util.Memory.{copy_to, memcpy_lem, take-prefix, take-all, length-take, length-drop}

-- The first bytes of memory after a copy, and that its size is the same.
pub record IsCopied (p n : ℕ) (src m : List ℕ) : Type 0 where
  pub memory : List ℕ
  pub result : copy_to p n src m ≡ done memory
  pub same_length : length memory ≡ length m
  pub first : take (p + n) memory ≡ take p m ++ take n src

pub copy_to_lem :
    (p n : ℕ) (src m : List ℕ) → p + n ≤ length m → n ≤ length src → IsCopied p n src m
unfolding copy_to
copy_to_lem p n src m room enough =
    let before = length-take p m (omega arith) in
    let copied = length-take n src enough in
    let left = length-drop p m in
    let left' = length-drop n (drop p m) in
    let new = take n src ++ drop n (drop p m) in
    record {
      memory = take p m ++ new;
      result = rw (memcpy_lem n src (drop p m) enough (omega (arith, left)));
      same_length = omega (
        arith,
        length-append (take p m) new,
        length-append (take n src) (drop n (drop p m)),
        before,
        copied,
        left,
        left',
      );
      first = rw (← append_assoc (take p m) (take n src) (drop n (drop p m))) (
          take-prefix (p + n) (take p m ++ take n src) (drop n (drop p m))
            (omega (arith, length-append (take p m) (take n src), before, copied)));
    }

take-plus : (a b : ℕ) (m : List ℕ) → take (a + b) m ≡ take a m ++ take b (drop a m)
take-plus zero b m = let z : 0 + b ≡ b = omega arith in rw z
take-plus (suc a) b [] = let s : suc a + b ≡ suc (a + b) = omega arith in rw s (sym (take-nil b))
take-plus (suc a) b (x ∷ m) =
    let s : suc a + b ≡ suc (a + b) = omega arith in rw s (ap (λ l. x ∷ l) (take-plus a b m))

-- A header of eight bytes, `n` bytes behind it, and more that keep what they held: all of `8 + room`
-- bytes from `p` on.
pub record IsPut (p n room : ℕ) (header bytes m : List ℕ) : Type 0 where
  pub one : IsCopied p 8 header m
  pub two : IsCopied (p + 8) n bytes one.memory
  pub padding : List ℕ
  pub length_padding : length padding ≡ room - n
  pub layout : take (p + 8 + room) two.memory ≡ take p m ++ (header ++ (take n bytes ++ padding))

pub put_lem :
    (p n room : ℕ) (header bytes m : List ℕ)
    → length header ≡ 8
    → n ≤ room
    → n ≤ length bytes
    → p + 8 + room ≤ length m
    → IsPut p n room header bytes m
put_lem p n room header bytes m eight fits enough inside =
    let one = copy_to_lem p 8 header m (omega arith) (omega (arith, eight)) in
    let two = copy_to_lem (p + 8) n bytes one.memory (omega (arith, one.same_length)) enough in
    let padding = take (room - n) (drop (p + 8 + n) two.memory) in
    let a : p + 8 + room ≡ p + 8 + n + (room - n) = omega arith in
    record {
      one = one;
      two = two;
      padding = padding;
      length_padding =
          length-take (room - n) (drop (p + 8 + n) two.memory)
            (omega (arith, length-drop (p + 8 + n) two.memory, two.same_length, one.same_length));
      layout = rw (
        a,
        take-plus (p + 8 + n) (room - n) two.memory,
        two.first,
        one.first,
        take-all 8 header eight,
        append_assoc (take p m ++ header) (take n bytes) padding,
        append_assoc (take p m) header (take n bytes ++ padding),
      );
    }
