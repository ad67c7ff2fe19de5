-- ===== src/Keysyms/Case.antt =====
-- `xcb_convert_case` of keysyms/keysyms.c: the lower and the upper case form of a key symbol, by
-- the byte that names its alphabet.
pub mod Pairs
use xcb_util.Prelude.{
  ℕ, Bool, ◌&&◌, not, leb, ◌==◌, if◌then◌else◌, add32, sub32, bit_and, bit_or, not32, ◌>>>◌,
}

-- The constants of X11/keysymdef.h that the function names: `XK_Agrave` is `capital_agrave`, and
-- `XK_agrave` is `small_agrave`.
pub record Letters : Type 0 where
  pub capital_a : ℕ
  pub small_a : ℕ
  pub capital_z : ℕ
  pub small_z : ℕ
  pub capital_agrave : ℕ
  pub small_agrave : ℕ
  pub capital_odiaeresis : ℕ
  pub small_odiaeresis : ℕ
  pub capital_ooblique : ℕ
  pub small_oslash : ℕ
  pub capital_thorn : ℕ
  pub small_thorn : ℕ
  pub capital_aogonek : ℕ
  pub small_aogonek : ℕ
  pub capital_lstroke : ℕ
  pub small_lstroke : ℕ
  pub capital_sacute : ℕ
  pub small_sacute : ℕ
  pub capital_scaron : ℕ
  pub small_scaron : ℕ
  pub capital_zacute : ℕ
  pub small_zacute : ℕ
  pub capital_zcaron : ℕ
  pub small_zcaron : ℕ
  pub capital_zabovedot : ℕ
  pub small_zabovedot : ℕ
  pub capital_racute : ℕ
  pub small_racute : ℕ
  pub capital_tcedilla : ℕ
  pub small_tcedilla : ℕ
  pub capital_hstroke : ℕ
  pub small_hstroke : ℕ
  pub capital_hcircumflex : ℕ
  pub small_hcircumflex : ℕ
  pub capital_gbreve : ℕ
  pub small_gbreve : ℕ
  pub capital_jcircumflex : ℕ
  pub small_jcircumflex : ℕ
  pub capital_cabovedot : ℕ
  pub small_cabovedot : ℕ
  pub capital_scircumflex : ℕ
  pub small_scircumflex : ℕ
  pub capital_rcedilla : ℕ
  pub small_rcedilla : ℕ
  pub capital_tslash : ℕ
  pub small_tslash : ℕ
  pub capital_eng : ℕ
  pub small_eng : ℕ
  pub capital_amacron : ℕ
  pub small_amacron : ℕ
  pub capital_umacron : ℕ
  pub small_umacron : ℕ
  pub capital_serbian_dje : ℕ
  pub small_serbian_dje : ℕ
  pub capital_serbian_dze : ℕ
  pub small_serbian_dze : ℕ
  pub capital_cyrillic_yu : ℕ
  pub small_cyrillic_yu : ℕ
  pub capital_cyrillic_hardsign : ℕ
  pub small_cyrillic_hardsign : ℕ
  pub capital_greek_alphaaccent : ℕ
  pub small_greek_alphaaccent : ℕ
  pub capital_greek_omegaaccent : ℕ
  pub small_greek_omegaaccent : ℕ
  pub capital_greek_alpha : ℕ
  pub small_greek_alpha : ℕ
  pub capital_greek_omega : ℕ
  pub small_greek_omega : ℕ
  pub greek_iotaaccentdieresis : ℕ
  pub greek_upsilonaccentdieresis : ℕ
  pub greek_finalsmallsigma : ℕ
  pub capital_armenian_ayb : ℕ
  pub small_armenian_fe : ℕ

abbrev pub between : ℕ → ℕ → ℕ → Bool
between sym low high = leb low sym && leb sym high

-- `*lower += small - capital` and `*upper -= small - capital`.
abbrev pub to_lower : ℕ → ℕ → ℕ → ℕ × ℕ
to_lower sym small capital = (add32 sym (sub32 small capital), sym)

abbrev pub to_upper : ℕ → ℕ → ℕ → ℕ × ℕ
to_upper sym small capital = (sym, sub32 sym (sub32 small capital))

module _ (k : Letters) where
  unfoldable pub latin_1 : ℕ → ℕ × ℕ
  latin_1 sym =
      if between sym k.capital_a k.capital_z
      then to_lower sym k.small_a k.capital_a
      else if between sym k.small_a k.small_z
      then to_upper sym k.small_a k.capital_a
      else if between sym k.capital_agrave k.capital_odiaeresis
      then to_lower sym k.small_agrave k.capital_agrave
      else if between sym k.small_agrave k.small_odiaeresis
      then to_upper sym k.small_agrave k.capital_agrave
      else if between sym k.capital_ooblique k.capital_thorn
      then to_lower sym k.small_oslash k.capital_ooblique
      else if between sym k.small_oslash k.small_thorn
      then to_upper sym k.small_oslash k.capital_ooblique
      else (sym, sym)

  unfoldable pub latin_2 : ℕ → ℕ × ℕ
  latin_2 sym =
      if sym == k.capital_aogonek
      then (k.small_aogonek, sym)
      else if between sym k.capital_lstroke k.capital_sacute
      then to_lower sym k.small_lstroke k.capital_lstroke
      else if between sym k.capital_scaron k.capital_zacute
      then to_lower sym k.small_scaron k.capital_scaron
      else if between sym k.capital_zcaron k.capital_zabovedot
      then to_lower sym k.small_zcaron k.capital_zcaron
      else if sym == k.small_aogonek
      then (sym, k.capital_aogonek)
      else if between sym k.small_lstroke k.small_sacute
      then to_upper sym k.small_lstroke k.capital_lstroke
      else if between sym k.small_scaron k.small_zacute
      then to_upper sym k.small_scaron k.capital_scaron
      else if between sym k.small_zcaron k.small_zabovedot
      then to_upper sym k.small_zcaron k.capital_zcaron
      else if between sym k.capital_racute k.capital_tcedilla
      then to_lower sym k.small_racute k.capital_racute
      else if between sym k.small_racute k.small_tcedilla
      then to_upper sym k.small_racute k.capital_racute
      else (sym, sym)

  unfoldable pub latin_3 : ℕ → ℕ × ℕ
  latin_3 sym =
      if between sym k.capital_hstroke k.capital_hcircumflex
      then to_lower sym k.small_hstroke k.capital_hstroke
      else if between sym k.capital_gbreve k.capital_jcircumflex
      then to_lower sym k.small_gbreve k.capital_gbreve
      else if between sym k.small_hstroke k.small_hcircumflex
      then to_upper sym k.small_hstroke k.capital_hstroke
      else if between sym k.small_gbreve k.small_jcircumflex
      then to_upper sym k.small_gbreve k.capital_gbreve
      else if between sym k.capital_cabovedot k.capital_scircumflex
      then to_lower sym k.small_cabovedot k.capital_cabovedot
      else if between sym k.small_cabovedot k.small_scircumflex
      then to_upper sym k.small_cabovedot k.capital_cabovedot
      else (sym, sym)

  unfoldable pub latin_4 : ℕ → ℕ × ℕ
  latin_4 sym =
      if between sym k.capital_rcedilla k.capital_tslash
      then to_lower sym k.small_rcedilla k.capital_rcedilla
      else if between sym k.small_rcedilla k.small_tslash
      then to_upper sym k.small_rcedilla k.capital_rcedilla
      else if sym == k.capital_eng
      then (k.small_eng, sym)
      else if sym == k.small_eng
      then (sym, k.capital_eng)
      else if between sym k.capital_amacron k.capital_umacron
      then to_lower sym k.small_amacron k.capital_amacron
      else if between sym k.small_amacron k.small_umacron
      then to_upper sym k.small_amacron k.capital_amacron
      else (sym, sym)

  unfoldable pub cyrillic : ℕ → ℕ × ℕ
  cyrillic sym =
      if between sym k.capital_serbian_dje k.capital_serbian_dze
      then (sub32 sym (sub32 k.capital_serbian_dje k.small_serbian_dje), sym)
      else if between sym k.small_serbian_dje k.small_serbian_dze
      then (sym, add32 sym (sub32 k.capital_serbian_dje k.small_serbian_dje))
      else if between sym k.capital_cyrillic_yu k.capital_cyrillic_hardsign
      then (sub32 sym (sub32 k.capital_cyrillic_yu k.small_cyrillic_yu), sym)
      else if between sym k.small_cyrillic_yu k.small_cyrillic_hardsign
      then (sym, add32 sym (sub32 k.capital_cyrillic_yu k.small_cyrillic_yu))
      else (sym, sym)

  unfoldable pub greek : ℕ → ℕ × ℕ
  greek sym =
      if between sym k.capital_greek_alphaaccent k.capital_greek_omegaaccent
      then to_lower sym k.small_greek_alphaaccent k.capital_greek_alphaaccent
      else if (between sym k.small_greek_alphaaccent k.small_greek_omegaaccent
          && (not (sym == k.greek_iotaaccentdieresis)
              && not (sym == k.greek_upsilonaccentdieresis)))
      then to_upper sym k.small_greek_alphaaccent k.capital_greek_alphaaccent
      else if between sym k.capital_greek_alpha k.capital_greek_omega
      then to_lower sym k.small_greek_alpha k.capital_greek_alpha
      else if (between sym k.small_greek_alpha k.small_greek_omega
          && not (sym == k.greek_finalsmallsigma))
      then to_upper sym k.small_greek_alpha k.capital_greek_alpha
      else (sym, sym)

  unfoldable pub armenian : ℕ → ℕ × ℕ
  armenian sym =
      if between sym k.capital_armenian_ayb k.small_armenian_fe
      then (bit_or sym 1, bit_and sym (not32 1))
      else (sym, sym)

  -- `xcb_convert_case`: what `*lower` and `*upper` are set to.
  unfoldable pub convert_case : ℕ → ℕ × ℕ
  convert_case sym =
      let group = sym >>> 8 in
      if group == 0
      then latin_1 sym
      else if group == 1
      then latin_2 sym
      else if group == 2
      then latin_3 sym
      else if group == 3
      then latin_4 sym
      else if group == 6
      then cyrillic sym
      else if group == 7
      then greek sym
      else if group == 0x14
      then armenian sym
      else (sym, sym)
