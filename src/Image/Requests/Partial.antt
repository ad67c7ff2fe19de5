-- ===== src/Image/Requests/Partial.antt =====
-- A mask that leaves planes out.
use xcb_util.Prelude.{
  ◌≤◌, ◌<◌, refl, sym, ap, ◌∙◌, true, ◌&&◌, ◌||◌, ltb, inl, inr, Bool-cases, ℕ, Bool, not, ◌==◌,
  ◌≡◌, bit_and, some, fault, arith, false,
}
use xcb_util.Bitops.{mask}
use xcb_util.Bits.{all_below, all_below_sound}
use xcb_util.Bits.Flags.{has, has-bit_and}
use xcb_util.Image.{xy_pixmap}
use xcb_util.Image.Create.{Malloc, Setup}
use xcb_util.Image.Requests.{ImageReply, get_reply, get_partial}

implied : (a b : Bool) → (not a || b) ≡ true → a ≡ true → b ≡ true
implied a b h k = ground arith

true-false : true ≡ false → ⊥
true-false e = cc

mask-has : (depth i : ℕ) → depth ≤ 32 → i < depth → has (mask depth) i ≡ true
unfolding mask has all_below
mask-has depth i small lt =
    implied (ltb i depth) (has (mask depth) i)
      (all_below_sound 32 (λ i'. not (ltb i' depth) || has (mask depth) i') i
        (all_below_sound 33 (λ d. all_below 32 (λ i'. not (ltb i' d) || has (mask d) i')) depth refl
          (omega arith))
        (omega arith))
      (ground (arith, lt))

-- `xcb_image_get` for an xy-pixmap reads through a null pointer whenever the plane mask lacks a plane of the
-- drawable, whatever the server replies. The depth is at most 32.
pub get_reply-partial :
    (malloc : Malloc) (setup : Setup) (width height plane_mask i : ℕ) (imrep : ImageReply)
    → imrep.depth ≤ 32
    → i < imrep.depth
    → has plane_mask i ≡ false
    → get_reply malloc setup width height plane_mask xy_pixmap (some imrep) ≡ fault
unfolding get_reply get_partial
get_reply-partial malloc setup width height plane_mask i imrep small lt out =
    let planes = mask imrep.depth in
    elim (Bool-cases (bit_and plane_mask planes == planes)) [
      | inr q ↦ rw q refl
      | inl q ↦
          let is : bit_and plane_mask planes ≡ planes = ground (arith, q) in
          let one = mask-has imrep.depth i small lt in
          let there : has planes i ≡ (has planes i && has plane_mask i) =
            ap (λ n. has n i) (sym is) ∙ has-bit_and plane_mask planes i in
          absurd (true-false (sym one ∙ there ∙ rw (one, out) refl))
    ]
