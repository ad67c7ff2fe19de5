-- ===== src/Keysyms/Case/Pairs.antt =====
-- Case conversion goes back and forth between the two forms of a letter.
use xcb_util.Prelude.{
  ℕ, ◌≤◌, ◌≡◌, ◌≢◌, refl, sym, subst, Bool, true, false, ◌&&◌, ◌||◌, ◌==◌, ◌>>>◌, dec_lt, arith,
}
use xcb_util.Bits.{all_below, all_below_sound}
use xcb_util.Keysyms.Case.{
  Letters, latin_1, latin_2, latin_3, latin_4, cyrillic, greek, convert_case,
}

-- The values that the X protocol gives to these symbols. The Armenian ones are left open.
abbrev pub documented : ℕ → ℕ → Letters
documented ayb fe = record {
  capital_a = 0x41;
  small_a = 0x61;
  capital_z = 0x5a;
  small_z = 0x7a;
  capital_agrave = 0xc0;
  small_agrave = 0xe0;
  capital_odiaeresis = 0xd6;
  small_odiaeresis = 0xf6;
  capital_ooblique = 0xd8;
  small_oslash = 0xf8;
  capital_thorn = 0xde;
  small_thorn = 0xfe;
  capital_aogonek = 0x1a1;
  small_aogonek = 0x1b1;
  capital_lstroke = 0x1a3;
  small_lstroke = 0x1b3;
  capital_sacute = 0x1a6;
  small_sacute = 0x1b6;
  capital_scaron = 0x1a9;
  small_scaron = 0x1b9;
  capital_zacute = 0x1ac;
  small_zacute = 0x1bc;
  capital_zcaron = 0x1ae;
  small_zcaron = 0x1be;
  capital_zabovedot = 0x1af;
  small_zabovedot = 0x1bf;
  capital_racute = 0x1c0;
  small_racute = 0x1e0;
  capital_tcedilla = 0x1de;
  small_tcedilla = 0x1fe;
  capital_hstroke = 0x2a1;
  small_hstroke = 0x2b1;
  capital_hcircumflex = 0x2a6;
  small_hcircumflex = 0x2b6;
  capital_gbreve = 0x2ab;
  small_gbreve = 0x2bb;
  capital_jcircumflex = 0x2ac;
  small_jcircumflex = 0x2bc;
  capital_cabovedot = 0x2c5;
  small_cabovedot = 0x2e5;
  capital_scircumflex = 0x2de;
  small_scircumflex = 0x2fe;
  capital_rcedilla = 0x3a3;
  small_rcedilla = 0x3b3;
  capital_tslash = 0x3ac;
  small_tslash = 0x3bc;
  capital_eng = 0x3bd;
  small_eng = 0x3bf;
  capital_amacron = 0x3c0;
  small_amacron = 0x3e0;
  capital_umacron = 0x3de;
  small_umacron = 0x3fe;
  capital_serbian_dje = 0x6b1;
  small_serbian_dje = 0x6a1;
  capital_serbian_dze = 0x6bf;
  small_serbian_dze = 0x6af;
  capital_cyrillic_yu = 0x6e0;
  small_cyrillic_yu = 0x6c0;
  capital_cyrillic_hardsign = 0x6ff;
  small_cyrillic_hardsign = 0x6df;
  capital_greek_alphaaccent = 0x7a1;
  small_greek_alphaaccent = 0x7b1;
  capital_greek_omegaaccent = 0x7ab;
  small_greek_omegaaccent = 0x7bb;
  capital_greek_alpha = 0x7c1;
  small_greek_alpha = 0x7e1;
  capital_greek_omega = 0x7d9;
  small_greek_omega = 0x7f9;
  greek_iotaaccentdieresis = 0x7b6;
  greek_upsilonaccentdieresis = 0x7ba;
  greek_finalsmallsigma = 0x7f3;
  capital_armenian_ayb = ayb;
  small_armenian_fe = fe;
}

-- Places in the Greek alphabet that have no symbol, opposite to one that has.
abbrev pub is_gap : ℕ → Bool
is_gap s = s == 0x7a6 || (s == 0x7aa || s == 0x7d3)

abbrev same : ℕ × ℕ → ℕ × ℕ → Bool
same p q = p.0 == q.0 && p.1 == q.1

and_true : (a b : Bool) → (a && b) ≡ true → (a ≡ true) × (b ≡ true)
and_true a b h = ground arith

module _ (ayb fe : ℕ) where
  abbrev forms : ℕ → ℕ × ℕ
  forms = convert_case (documented ayb fe)

  unfoldable paired : ℕ → Bool
  paired s = is_gap s || (same (forms (forms s).0) (forms s) && same (forms (forms s).1) (forms s))

  table : all_below 0x800 paired ≡ true
  unfolding all_below paired convert_case latin_1 latin_2 latin_3 latin_4 cyrillic greek
  table = refl

  other : (s : ℕ) → 0x800 ≤ s → s >>> 8 ≢ 0x14 → forms s ≡ (s, s)
  unfolding convert_case
  other s high not_armenian = ground arith

  same_eq : (p q : ℕ × ℕ) → same p q ≡ true → p ≡ q
  same_eq p q h = ground arith

  pair_of :
      (s : ℕ)
      → s >>> 8 ≢ 0x14
      → is_gap s ≡ false
      → (forms (forms s).0 ≡ forms s) × (forms (forms s).1 ≡ forms s)
  unfolding paired
  pair_of s not_armenian legal = elim (dec_lt s 0x800) [
    | yes low ↦
        let both = rw legal at (all_below_sound 0x800 paired s table low) in
        let (l, u) = and_true _ _ both in (same_eq _ _ l, same_eq _ _ u)
    | no high ↦ let e = other s (omega arith) not_armenian in rw (e, e) (refl, refl)
  ]

-- The lower case form and the upper case form of a symbol have the same two forms as the symbol: case
-- conversion is stable and its two directions undo each other. The symbol is not Armenian, nor one of
-- the three empty places of the Greek alphabet, and the header has the documented values.
pub convert_case-forms :
    (k : Letters) (s : ℕ)
    → k ≡ documented k.capital_armenian_ayb k.small_armenian_fe
    → s >>> 8 ≢ 0x14
    → is_gap s ≡ false
    → (convert_case k (convert_case k s).0 ≡ convert_case k s)
      × (convert_case k (convert_case k s).1 ≡ convert_case k s)
convert_case-forms k s values not_armenian legal =
    subst
      (λ l.
        (convert_case l (convert_case l s).0 ≡ convert_case l s)
        × (convert_case l (convert_case l s).1 ≡ convert_case l s))
      (sym values) (pair_of k.capital_armenian_ayb k.small_armenian_fe s not_armenian legal)
