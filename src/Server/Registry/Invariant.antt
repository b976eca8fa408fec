-- ===== src/Server/Registry/Invariant.antt =====
-- What every operation of the registry keeps: each entry points to a connection that carries the
-- entry's key as its id, the id is not empty, and no key stands twice.
use sand_d.Prelude.{
  ℕ, String, ◌≡◌, ◌∙◌, ◌≢◌, not, some, List, [], ◌∷◌, ◌++◌, ◌==◌, arith, eq_iff, length, get_elem?,
  get_elem?-push, get_elem?-append, get_elem?-set_self, get_elem?-set_ne, Option-cases, ℕ_discrete,
  inl, inr, Bool-cases,
}
use sand_d.Prelude.Dict.{
  lookup, NodupKeys, lookup-insert, lookup-remove, lookup-retain, insert-NodupKeys,
  remove-NodupKeys, retain-NodupKeys, lookup-nil,
}
use sand_d.Server.Connection.{DaemonConnection}
use sand_d.Server.Registry.{
  DaemonRegistry, empty, deref, modify, register, unregister, cleanup_stale, holds, is_stale,
}

pub record IsEntry (heap : List DaemonConnection) (id : String) (arc : ℕ) : Type 0 where
  pub conn : DaemonConnection
  pub found : get_elem? heap arc ≡ some conn
  pub named : conn.id ≡ id
  pub addressable : id ≢ ""

pub record IsWellFormed (r : DaemonRegistry) : Type 0 where
  pub distinct : NodupKeys r.connections
  pub entries : (id : String) (arc : ℕ) → lookup id r.connections ≡ some arc → IsEntry r.heap id arc

pub empty-IsWellFormed : IsWellFormed empty
empty-IsWellFormed = record { distinct = tt; entries = λ id arc h. cc (lookup-nil {V = ℕ} id) }

IsEntry-push :
    (heap : List DaemonConnection) (conn : DaemonConnection) (id : String) (arc : ℕ)
    → IsEntry heap id arc
    → IsEntry (heap ++ conn ∷ []) id arc
IsEntry-push heap conn id arc e = record {
  conn = e.conn;
  found = get_elem?-append heap (conn ∷ []) arc e.found;
  named = e.named;
  addressable = e.addressable;
}

register-IsEntry :
    (conn : DaemonConnection) (r : DaemonRegistry) (id : String) (arc : ℕ)
    → conn.id ≢ ""
    → IsWellFormed r
    → lookup id (register conn r).1.connections ≡ some arc
    → IsEntry (register conn r).1.heap id arc
unfolding register
register-IsEntry conn r id arc h w e = elim (Bool-cases (conn.id == id)) [
  | inl same ↦
      let at_end : arc ≡ length r.heap =
        ground (arith, lookup-insert conn.id id (length r.heap) r.connections) in
      record {
        conn = conn;
        found = rw at_end (get_elem?-push r.heap conn);
        named = (eq_iff conn.id id).0 same;
        addressable = λ p. h ((eq_iff conn.id id).0 same ∙ p);
      }
  | inr other ↦
      IsEntry-push r.heap conn id arc
        (w.entries id arc (ground (arith, lookup-insert conn.id id (length r.heap) r.connections)))
]

pub register-IsWellFormed :
    (conn : DaemonConnection) (r : DaemonRegistry)
    → conn.id ≢ ""
    → IsWellFormed r
    → IsWellFormed (register conn r).1
unfolding register
register-IsWellFormed conn r h w = record {
  distinct = insert-NodupKeys conn.id (length r.heap) r.connections w.distinct;
  entries = λ id arc e. register-IsEntry conn r id arc h w e;
}

pub unregister-IsWellFormed :
    (id : String) (r : DaemonRegistry) → IsWellFormed r → IsWellFormed (unregister id r)
unfolding unregister
unregister-IsWellFormed id r w = record {
  distinct = remove-NodupKeys id r.connections w.distinct;
  entries = λ j arc e. w.entries j arc (ground (arith, lookup-remove id j r.connections));
}

pub cleanup_stale-IsWellFormed :
    (now timeout_secs : ℕ) (r : DaemonRegistry)
    → IsWellFormed r
    → IsWellFormed (cleanup_stale now timeout_secs r).1
unfolding cleanup_stale
cleanup_stale-IsWellFormed now timeout_secs r w = record {
  distinct = retain-NodupKeys _ r.connections w.distinct;
  entries = λ j arc e. w.entries j arc (
      ground (
        arith,
        lookup-retain (λ _ a. not (holds (is_stale now timeout_secs) (deref r a))) j r.connections
            w.distinct,
      ));
}

-- A method of a connection leaves its id alone.
abbrev pub KeepsId : (DaemonConnection → DaemonConnection) → Type 0
KeepsId f = (c : DaemonConnection) → (f c).id ≡ c.id

modify-IsEntry :
    (a : ℕ) (f : DaemonConnection → DaemonConnection) (r : DaemonRegistry) (id : String) (arc : ℕ)
    → KeepsId f
    → IsEntry r.heap id arc
    → IsEntry (modify a f r).heap id arc
unfolding modify
modify-IsEntry a f r id arc k e = elim (Option-cases (get_elem? r.heap a)) [
  | inl missing ↦ rw missing e
  | inr (c, there) ↦ elim (ℕ_discrete a arc) [
    | yes same ↦ rw there (record {
      conn = f c;
      found = rw (← same) (get_elem?-set_self r.heap a (f c) there);
      named = cc (k c, e.named, e.found, there, same);
      addressable = e.addressable;
    })
    | no differ ↦ rw there (record {
      conn = e.conn;
      found = rw (get_elem?-set_ne r.heap (f c) differ) e.found;
      named = e.named;
      addressable = e.addressable;
    })
  ]
]

pub modify-IsWellFormed :
    (a : ℕ) (f : DaemonConnection → DaemonConnection) (r : DaemonRegistry)
    → KeepsId f
    → IsWellFormed r
    → IsWellFormed (modify a f r)
unfolding modify
modify-IsWellFormed a f r k w = record {
  distinct = w.distinct;
  entries = λ id arc e. modify-IsEntry a f r id arc k (w.entries id arc e);
}
