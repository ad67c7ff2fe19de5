-- ===== src/Renderutil/Cache/Table/Leave.antt =====
-- A connection that is taken out of the list.
use xcb_util.Prelude.{
  ℕ, ◌≡◌, inl, inr, refl, sym, ap, ◌∙◌, List, [], ◌∷◌, Bool, false, ◌==◌, if◌then◌else◌, Option,
  some, none, fault, first_match, All, subst, arith, Bool-cases, Option-cases,
}
use xcb_util.Renderutil.Cache.{
  Node, Connections, Query, node_at, node_of, find_display_from, unlink, disconnect,
}
use xcb_util.Renderutil.Cache.Table.{forgotten, is_known}
use xcb_util.Renderutil.Cache.Table.Keys.{
  IsDistinct, none-some, some_inj, found-key, found-apart, found-other,
}
use xcb_util.Renderutil.Cache.Table.Found.{IsLive, IsConnections, info, table_of}

-- A node is taken out of the list.
record IsUnlinked (c : ℕ) (n : Node) (ns : List Node) : Type 0 where
  rest : List Node
  result : unlink c ns ≡ (rest, some n.at)
  all : (test : Node → Bool) → All (λ m. test m ≡ false) ns → All (λ m. test m ≡ false) rest
  distinct : (key : Node → ℕ) → IsDistinct key ns → IsDistinct key rest
  gone : node_of c rest ≡ none
  gone_at : IsDistinct (λ m. m.at) ns → node_at n.at rest ≡ none
  others : (c' : ℕ) → (c' == c) ≡ false → node_of c' rest ≡ node_of c' ns
  elsewhere : (p : ℕ) → (n.at == p) ≡ false → node_at p rest ≡ node_at p ns

unlink-none : (c : ℕ) (ns : List Node) → node_of c ns ≡ none → (unlink c ns).1 ≡ none
unfolding unlink first_match
unlink-none c [] e = refl
unlink-none c (m ∷ ns) e = elim (Bool-cases (m.c == c)) [
  | inl q ↦ absurd (none-some (sym (rw q at e)))
  | inr q ↦ rw q (unlink-none c ns (rw q at e))
]

gone_lem : (c : ℕ) (ns : List Node) → All (λ m. (m.c == c) ≡ false) ns → node_of c ns ≡ none
unfolding first_match
gone_lem c [] h = refl
gone_lem c (m ∷ ns) (h, hs) = rw h (gone_lem c ns hs)

gone_at_lem : (p : ℕ) (ns : List Node) → All (λ m. (m.at == p) ≡ false) ns → node_at p ns ≡ none
unfolding first_match
gone_at_lem p [] h = refl
gone_at_lem p (m ∷ ns) (h, hs) = rw h (gone_at_lem p ns hs)

unlink_lem :
    (c : ℕ) (n : Node) (ns : List Node)
    → IsDistinct (λ m. m.c) ns
    → node_of c ns ≡ some n
    → IsUnlinked c n ns
unfolding unlink first_match
unlink_lem c n [] h e = absurd (none-some e)
unlink_lem c n (m ∷ ns) (h, hs) e = elim (Bool-cases (m.c == c)) [
  | inl q ↦
      let is : m ≡ n = some_inj (rw q at e) in
      let mine : m.c ≡ c = ground (arith, q) in
      record {
        rest = ns;
        result = rw q (ap (λ k. (ns, some k.at)) is);
        all = λ P a. a.1;
        distinct = λ key d. d.1;
        gone = gone_lem c ns (rw mine at h);
        gone_at =
            λ d. gone_at_lem n.at ns (subst (λ k. All (λ m. (m.at == k.at) ≡ false) ns) is d.0);
        others = λ c' d. let d' : (m.c == c') ≡ false = ground (arith, d, mine) in rw d' refl;
        elsewhere = λ p d. let d' : (m.at == p) ≡ false = ap (λ k. k.at == p) is ∙ d in rw d' refl;
      }
  | inr q ↦
      let u = unlink_lem c n ns hs (rw q at e) in
      record {
        rest = m ∷ u.rest;
        result = rw (q, u.result) refl;
        all = λ P a. (a.0, u.all P a.1);
        distinct = λ key d. (u.all (λ k. key k == key m) d.0, u.distinct key d.1);
        gone = rw q u.gone;
        gone_at = λ d.
            let apart : (m.at == n.at) ≡ false =
              ground (arith, found-apart (λ k. k.c) (λ k. k.at) c m.at ns n d.0 (rw q at e)) in
            rw apart (u.gone_at d.1);
        others = λ c' d. ap (λ o. if m.c == c' then some m else o) (u.others c' d);
        elsewhere = λ p d. ap (λ o. if m.at == p then some m else o) (u.elsewhere p d);
      }
]

-- `cur` after the node at `p` is taken out.
abbrev flushed : ℕ → Option ℕ → Option ℕ
flushed p cur = elim cur [ none ↦ none | some p' ↦ if p == p' then none else some p' ]

flushed-IsLive :
    (c : ℕ) (n : Node) (ns : List Node) (u : IsUnlinked c n ns) (cur : Option ℕ)
    → IsLive cur ns
    → IsLive (flushed n.at cur) u.rest
flushed-IsLive c n ns u none live = tt
flushed-IsLive c n ns u (some p) (m, at) = elim (Bool-cases (n.at == p)) [
  | inl q ↦ rw q tt
  | inr q ↦ rw q (m, u.elsewhere p q ∙ at)
]

-- What `disconnect` leaves, and what it returns.
pub record IsLeft (c : ℕ) (s : Connections) : Type 0 where
  pub after : Connections
  pub returned : disconnect c s ≡ (after, is_known (table_of s c))
  pub still : IsConnections after
  pub table : (c' : ℕ) → table_of after c' ≡ forgotten c (table_of s) c'

pub disconnect-IsLeft : (c : ℕ) (s : Connections) → IsConnections s → IsLeft c s
unfolding disconnect
disconnect-IsLeft c s h = elim (Option-cases (node_of c s.nodes)) [
  | inl e ↦ record {
    after = s;
    returned = rw (disconnect, unlink-none c s.nodes e, e) refl;
    still = h;
    table = λ c'. elim (Bool-cases (c' == c)) [
      | inr q ↦ rw q refl
      | inl q ↦ let is : c' ≡ c = ground (arith, q) in rw (q, is, e) refl
    ];
  }
  | inr (n, e) ↦
      let u = unlink_lem c n s.nodes h.by_connection e in
      record {
        after = record { nodes = u.rest; cur = flushed n.at s.cur };
        returned = rw (disconnect, ap (λ r. r.1) u.result, ap (λ r. r.0) u.result, e) refl;
        still = record {
          by_address = u.distinct (λ m. m.at) h.by_address;
          by_connection = u.distinct (λ m. m.c) h.by_connection;
          live = flushed-IsLive c n s.nodes u s.cur h.live;
        };
        table = λ c'. elim (Bool-cases (c' == c)) [
          | inr q ↦ rw q (ap info (u.others c' q))
          | inl q ↦ let is : c' ≡ c = ground (arith, q) in rw (q, is, u.gone) refl
        ];
      }
]

-- `find_display` reads the pointer to the node used last before it has the lock. If another thread leaves that
-- node's connection then, `find_display` reads the freed node, whatever connection it is asked about.
pub find_display-race :
    (s : Connections) (q : Query) (p : ℕ) (n : Node)
    → IsConnections s
    → s.cur ≡ some p
    → node_at p s.nodes ≡ some n
    → find_display_from s.cur q (disconnect n.c s).0 ≡ fault
unfolding disconnect find_display_from
find_display-race s q p n h reads at =
    let of = found-other (λ m. m.at) (λ m. m.c) p s.nodes n h.by_connection at in
    let u = unlink_lem n.c n s.nodes h.by_connection of in
    let is = found-key (λ m. m.at) p s.nodes n at in
    let lost : node_at p u.rest ≡ none =
      ap (λ k. node_at k u.rest) (sym is) ∙ u.gone_at h.by_address in
    rw (disconnect, ap (λ r. r.1) u.result, ap (λ r. r.0) u.result)
      (rw reads (rw (find_display_from, lost) refl))
