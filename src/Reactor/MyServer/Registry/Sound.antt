-- ===== src/Reactor/MyServer/Registry/Sound.antt =====
-- Each step keeps the entries exact.
use network_structure.Reactor.MyServer.Registry.{
  erases, erased, hangs, hung, is_among, opens, closed, stays, IsConn, closes, opened, Exact, Step,
  Registry,
}
use network_structure.Reactor.TcpServer.{erase_conn, same_name}
use network_structure.Prelude.{
  ℕ, suc, ◌≤◌, ◌≡◌, refl, sym, ap, ◌∙◌, ◌≢◌, inl, inr, false, ◌||◌, some, List, [], ◌∷◌, ◌++◌,
  arith, ◌==◌, ==_iff, Bool-cases, from_some,
}
use network_structure.Reactor.MyServer.Registry.Table.{
  find_conn, find_conn-erase_conn, name-cases, same_name_refl, find_conn-put_conn,
}

pub is_among-append :
    (c : ℕ) (xs ys : List ℕ) → is_among c (xs ++ ys) ≡ (is_among c xs || is_among c ys)
is_among-append c [] ys = refl
is_among-append c (x ∷ xs) ys = ground (arith, is_among-append c xs ys)

module _ (base limit : ℕ) (out : List ℕ) where
  module _ (r : Registry) (s : Exact base limit out r) (l : suc r.next_id ≤ limit) where
    -- No connection that is there has the name of the next one.
    new_name : (c : ℕ) → IsConn base r c → same_name (r.text r.next_id) (r.names c) ≡ false
    new_name c i = elim (name-cases (r.text r.next_id) (r.names c)) [
      | inl (h, e) ↦ absurd (s.unused c r.next_id i (omega arith) (omega (arith, l)) (sym e))
      | inr (h, e) ↦ h
    ]

    older : (c : ℕ) → (r.fresh == c) ≡ false → IsConn base (opened r) c → IsConn base r c
    older c h i = (i.0, ground (arith, h, i.1))

    opened-Exact : base ≤ r.fresh → Exact base limit out (opened r)
    opened-Exact b = record {
      listed = λ c i a. elim (Bool-cases (r.fresh == c)) [
        | inl h ↦ ground (
          arith,
          h,
          find_conn-put_conn (r.text r.next_id) (r.text r.next_id) r.fresh r.entries,
          same_name_refl (r.text r.next_id),
          (==_iff r.fresh c).0 h,
        )
        | inr h ↦ ground (
          arith,
          h,
          find_conn-put_conn (r.text r.next_id) (r.names c) r.fresh r.entries,
          new_name c (older c h i),
          s.listed c (older c h i),
          a,
        )
      ];
      only = λ k c e. elim (name-cases (r.text r.next_id) k) [
        | inl (h, t) ↦
            let eq : r.fresh ≡ c =
              from_some
                (sym (find_conn-put_conn (r.text r.next_id) k r.fresh r.entries ∙ rw h refl) ∙ e) in
            (
              (ground (arith, eq, b), ground (arith, eq)),
              ground (arith, eq, t),
              inl (ground (arith, eq)),
            )
        | inr (h, t) ↦
            let (i, n, a) =
              s.only k c
                (sym (find_conn-put_conn (r.text r.next_id) k r.fresh r.entries ∙ rw h refl) ∙ e) in
            ((i.0, omega (arith, i.1)), ground (arith, i.1, n), ground (arith, i.1, a))
      ];
      unused = λ c i m h g e. elim (Bool-cases (r.fresh == c)) [
        | inl q ↦
            let eq : r.next_id ≡ i = s.separate r.next_id i l g (ground (arith, q, e)) in
            absurd (omega (arith, eq, h))
        | inr q ↦ s.unused c i (older c q m) (omega (arith, h)) g (ground (arith, q, e))
      ];
      distinct = λ c d i j e. elim (Bool-cases (r.fresh == c)) [
        | inl h ↦ elim (Bool-cases (r.fresh == d)) [
          | inl g ↦ ground (arith, h, g)
          | inr g ↦
              absurd (s.unused d r.next_id (older d g j) (omega arith) l (ground (arith, h, g, e)))
        ]
        | inr h ↦ elim (Bool-cases (r.fresh == d)) [
          | inl g ↦
              absurd (s.unused c r.next_id (older c h i) (omega arith) l (ground (arith, h, g, e)))
          | inr g ↦ s.distinct c d (older c h i) (older d g j) (ground (arith, h, g, e))
        ]
      ];
      separate = s.separate;
    }

  -- What is left of the entries when a name is erased.
  left_entry :
      (r : Registry) (c d : ℕ) (k : List ℕ)
      → find_conn k (erase_conn (r.names c) r.entries) ≡ some d
      → (find_conn k r.entries ≡ some d) × (r.names c ≢ k)
  left_entry r c d k e = elim (name-cases (r.names c) k) [
    | inl (t, q) ↦ ground (arith, sym (find_conn-erase_conn (r.names c) k r.entries), t, e)
    | inr (t, q) ↦ (ground (arith, sym (find_conn-erase_conn (r.names c) k r.entries), t, e), q)
  ]

  -- Another connection's entry is left.
  still_listed :
      (r : Registry) (c d : ℕ)
      → r.names c ≢ r.names d
      → find_conn (r.names d) r.entries ≡ some d
      → find_conn (r.names d) (erase_conn (r.names c) r.entries) ≡ some d
  still_listed r c d h e = elim (name-cases (r.names c) (r.names d)) [
    | inl (t, q) ↦ absurd (h q)
    | inr (t, q) ↦ find_conn-erase_conn (r.names c) (r.names d) r.entries ∙ rw t e
  ]

  closed-Exact :
      (r : Registry) (c : ℕ)
      → Exact base limit out r
      → IsConn base r c
      → Exact base limit out (closed c r)
  closed-Exact r c s m = record {
    listed = λ d i a. elim (Bool-cases (c == d)) [
      | inl h ↦ ground (arith, h, a)
      | inr h ↦
          let apart : r.names c ≢ r.names d = λ g. ground (arith, h, s.distinct c d m i g) in
          still_listed r c d apart (s.listed d i (ground (arith, h, a)))
    ];
    only = λ k d e.
        let (kept, q) = left_entry r c d k e in
        let (i, n, a) = s.only k d kept in
        let other : c ≢ d = λ g. q (ap r.names g ∙ n) in (i, n, ground (arith, other, a));
    unused = s.unused;
    distinct = s.distinct;
    separate = s.separate;
  }

  hung-Exact : (r : Registry) (c : ℕ) → Exact base limit out r → Exact base limit out (hung c r)
  hung-Exact r c s = record {
    listed = λ d i a. s.listed d i (ground (arith, a));
    only = λ k d e.
        let (i, n, a) = s.only k d e in
        let here = is_among-append d out r.leaving in
        let there = is_among-append d out (r.leaving ++ c ∷ []) in
        let more = is_among-append d r.leaving (c ∷ []) in
        (i, n, ground (arith, a, here, there, more));
    unused = s.unused;
    distinct = s.distinct;
    separate = s.separate;
  }

  erased-Exact :
      (r : Registry) (c : ℕ)
      → Exact base limit (c ∷ out) r
      → IsConn base r c
      → r.alive c ≡ false
      → Exact base limit out (erased c r)
  erased-Exact r c s m g = record {
    listed = λ d i a.
        let apart : r.names c ≢ r.names d =
          λ q. ground (arith, g, a, ap r.alive (s.distinct c d m i q)) in
        still_listed r c d apart (s.listed d i a);
    only = λ k d e.
        let (kept, q) = left_entry r c d k e in
        let (i, n, a) = s.only k d kept in
        let other : c ≢ d = λ g. q (ap r.names g ∙ n) in (i, n, ground (arith, other, a));
    unused = s.unused;
    distinct = s.distinct;
    separate = s.separate;
  }

-- A step keeps the entries exact, as long as no more ids than the limit are given out.
pub Step-Exact :
    (base limit : ℕ) (out done : List ℕ) (r t : Registry)
    → base ≤ r.fresh
    → Step base r done t
    → (r.next_id ≤ limit → Exact base limit (done ++ out) r)
    → t.next_id ≤ limit
    → Exact base limit out t
Step-Exact base limit out _ r _ b stays s l = s l
Step-Exact base limit out _ r _ b opens s l =
    opened-Exact base limit out r (s (omega (arith, l))) l b
Step-Exact base limit out _ r _ b (closes c m a h) s l = closed-Exact base limit out r c (s l) m
Step-Exact base limit out _ r _ b (hangs c m a h) s l = hung-Exact base limit out r c (s l)
Step-Exact base limit out _ r _ b (erases c m a) s l = erased-Exact base limit out r c (s l) m a
