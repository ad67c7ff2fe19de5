-- ===== src/Renderutil/Cache/Table/Found.antt =====
-- Connections as a table, and the pointer that `find_display` returns.
use xcb_util.Prelude.{
  ℕ, ◌≡◌, inl, inr, refl, sym, ap, ◌∙◌, List, [], ◌∷◌, true, false, ◌==◌, Option, some, none,
  Outcome, done, first_match, All, arith, Bool-cases, Option-cases,
}
use xcb_util.Renderutil.Cache.Depths.Required.{IsDepth, has_required_depths-eq-every}
use xcb_util.Renderutil.Cache.{
  Node, Connections, Peer, Query, addresses, node_at, node_of, new_node, find_or_create_display,
  find_display_from, find_display,
}
use xcb_util.Renderutil.Cache.Table.{Info, Table, info_of, asked, IsFresh, IsQuery}
use xcb_util.Renderutil.Cache.Table.Keys.{IsDistinct, found-other, missing-All}

fresh-All : (p : ℕ) (ns : List Node) → IsFresh p (addresses ns) → All (λ n. (n.at == p) ≡ false) ns
unfolding addresses
fresh-All p [] h = tt
fresh-All p (n ∷ ns) (h, hs) = (h, fresh-All p ns hs)

abbrev pub IsLive : Option ℕ → List Node → Type 0
IsLive none nodes = Unit
IsLive (some p) nodes = (n : Node) × (node_at p nodes ≡ some n)

-- Addresses and connections are not repeated, and `cur` points into the list.
pub record IsConnections (s : Connections) : Type 0 where
  pub by_address : IsDistinct (λ n. n.at) s.nodes
  pub by_connection : IsDistinct (λ n. n.c) s.nodes
  pub live : IsLive s.cur s.nodes

abbrev pub info : Option Node → Option Info
info none = none
info (some n) = some (n.version, n.formats)

-- The table that connections are.
abbrev pub table_of : Connections → Table
table_of s c = info (node_of c s.nodes)

abbrev pub IsPointer : Option ℕ → ℕ → List Node → Type 0
IsPointer none c nodes = node_of c nodes ≡ none
IsPointer (some p) c nodes = (n : Node) × (node_at p nodes ≡ some n) × (node_of c nodes ≡ some n)

-- The connection is asked, and the pointer is to what is known of it.
pub record IsFound (q : Query) (s : Connections) (result : Outcome (Connections × Option ℕ))
    : Type 0 where
  pub after : Connections
  pub pointer : Option ℕ
  pub returned : result ≡ done (after, pointer)
  pub still : IsConnections after
  pub table : (c : ℕ) → table_of after c ≡ asked q (table_of s) c
  pub points : IsPointer pointer q.c after.nodes

known_table :
    (q : Query) (s : Connections) (n : Node)
    → node_of q.c s.nodes ≡ some n
    → (c : ℕ) → table_of s c ≡ asked q (table_of s) c
known_table q s n e c = elim (Bool-cases (c == q.c)) [
  | inr r ↦ rw r refl
  | inl r ↦ let is : c ≡ q.c = ground (arith, r) in rw (r, is, e) refl
]

unknown_table :
    (q : Query) (s : Connections)
    → node_of q.c s.nodes ≡ none
    → q.memory ≡ none
    → (c : ℕ) → table_of s c ≡ asked q (table_of s) c
unknown_table q s e full c = elim (Bool-cases (c == q.c)) [
  | inr r ↦ rw r refl
  | inl r ↦ let is : c ≡ q.c = ground (arith, r) in rw (r, is, e, full) refl
]

abbrev node_for : ℕ → ℕ → Peer → Node
node_for at c peer = record {
  at = at;
  c = c;
  version = (info_of peer).0;
  formats = (info_of peer).1;
}

new_node_lem :
    (at c : ℕ) (peer : Peer)
    → All (λ screen. All IsDepth screen.depths) peer.server.screens
    → new_node at c peer ≡ done (node_for at c peer)
unfolding new_node
new_node_lem at c peer valid = rw (has_required_depths-eq-every peer.server valid) refl

-- There is no node for the connection, and there is memory for one.
add_display :
    (q : Query) (s : Connections)
    → IsQuery q
    → IsConnections s
    → node_of q.c s.nodes ≡ none
    → (malloc : List ℕ → ℕ) → q.memory ≡ some malloc
    → IsFound q s (find_or_create_display q s)
unfolding find_or_create_display first_match
add_display q s (valid, fresh) h e malloc room =
    let p = malloc (addresses s.nodes) in
    let n = node_for p q.c q.peer in
    let at : node_at p (n ∷ s.nodes) ≡ some n =
      let r : (p == p) ≡ true = ground arith in rw r refl in
    let of : node_of q.c (n ∷ s.nodes) ≡ some n =
      let r : (q.c == q.c) ≡ true = ground arith in rw r refl in
    record {
      after = record { nodes = n ∷ s.nodes; cur = some p };
      pointer = some p;
      returned = rw (find_or_create_display, e, room, new_node_lem p q.c q.peer valid) refl;
      still = record {
        by_address = (fresh-All p s.nodes (fresh malloc (addresses s.nodes) room), h.by_address);
        by_connection = (missing-All (λ m. m.c) q.c s.nodes e, h.by_connection);
        live = (n, at);
      };
      table = λ c. elim (Bool-cases (c == q.c)) [
        | inl r ↦
            let r' : (q.c == c) ≡ true = ground (arith, r) in
            let is : c ≡ q.c = ground (arith, r) in
            let e' : node_of c s.nodes ≡ none = ap (λ k. node_of k s.nodes) is ∙ e in
            rw (r', r) (rw (e', room) refl)
        | inr r ↦ let r' : (q.c == c) ≡ false = ground (arith, r) in rw (r, r') refl
      ];
      points = (n, at, of);
    }

find_or_create_display-IsFound :
    (q : Query) (s : Connections)
    → IsQuery q
    → IsConnections s
    → IsFound q s (find_or_create_display q s)
unfolding find_or_create_display
find_or_create_display-IsFound q s (valid, fresh) h = elim (Option-cases (node_of q.c s.nodes)) [
  | inr (n, e) ↦
      let at = found-other (λ m. m.c) (λ m. m.at) q.c s.nodes n h.by_address e in
      record {
        after = record s { cur = some n.at };
        pointer = some n.at;
        returned = rw (find_or_create_display, e) refl;
        still = record {
          by_address = h.by_address;
          by_connection = h.by_connection;
          live = (n, at);
        };
        table = known_table q s n e;
        points = (n, at, e);
      }
  | inl e ↦ elim (Option-cases q.memory) [
    | inl full ↦ record {
      after = s;
      pointer = none;
      returned = rw (find_or_create_display, e, full) refl;
      still = h;
      table = unknown_table q s e full;
      points = e;
    }
    | inr (malloc, room) ↦ add_display q s (valid, fresh) h e malloc room
  ]
]

-- Whichever node the pointer read is to, it is in the list.
pub find_display_from-IsFound :
    (pointer : Option ℕ) (q : Query) (s : Connections)
    → IsLive pointer s.nodes
    → IsQuery q
    → IsConnections s
    → IsFound q s (find_display_from pointer q s)
unfolding find_display_from
find_display_from-IsFound none q s live query h = find_or_create_display-IsFound q s query h
find_display_from-IsFound (some p) q s (n, at) query h = elim (Bool-cases (n.c == q.c)) [
  | inr r ↦ rw (find_display_from, at) (rw r (find_or_create_display-IsFound q s query h))
  | inl r ↦
      let is : n.c ≡ q.c = ground (arith, r) in
      let of =
        ap (λ k. node_of k s.nodes) (sym is)
        ∙ found-other (λ m. m.at) (λ m. m.c) p s.nodes n h.by_connection at in
      record {
        after = s;
        pointer = some p;
        returned = rw (find_display_from, at) (rw r refl);
        still = h;
        table = known_table q s n of;
        points = (n, at, of);
      }
]

pub find_display-IsFound :
    (q : Query) (s : Connections) → IsQuery q → IsConnections s → IsFound q s (find_display q s)
unfolding find_display
find_display-IsFound q s query h = find_display_from-IsFound s.cur q s h.live query h
