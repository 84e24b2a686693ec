-- ===== src/Server/Stores/Fanout/Advanced.antt =====
-- The members' latest seqs after their updates are stored.
use xyncra_server.Common.{
  ℕ, ◌+◌, ◌%◌, ◌^◌, ◌<◌, ◌≡◌, refl, sym, ◌∙◌, String, Bool, true, false, List, [], ◌∷◌, ◌++◌, inl,
  inr, arith, str_eq, eq_iff, All, All-In, In, In-append, In-append_left, In-append_right,
  Bool-cases, if◌then◌else◌, has, ap, NoDup,
}
use xyncra_server.Sql.Rows.{IsMax-le}
use xyncra_server.Server.Model.{UserUpdate}
use xyncra_server.Server.Stores.Fanout.Fanned.{Fanned, IsLatest}

module _ (user_id : String) where
  -- The updates of this user among the new ones: at least one, and all with the given seq.
  abbrev Only : ℕ → List UserUpdate → Type 0
  Only seq us =
      (u : UserUpdate) × In u us
      × (str_eq u.user_id user_id ≡ true)
      × (u.seq ≡ seq)
      × ((x : UserUpdate) → In x us → str_eq x.user_id user_id ≡ true → x.seq ≡ seq)

  Fanned-others :
      (t us : List UserUpdate) (ms : List String)
      → has user_id ms ≡ false
      → Fanned t ms us
      → All (λ u. str_eq u.user_id user_id ≡ false) us
  Fanned-others t [] [] h f = tt
  Fanned-others t (u ∷ us) [] h f = absurd f
  Fanned-others t [] (m ∷ ms) h f = absurd f
  Fanned-others t (u ∷ us) (m ∷ ms) h (same, _, rest) =
      ground (arith, same, eq_iff user_id m, eq_iff u.user_id user_id, Fanned-others t us ms)

  Fanned-Only :
      (t us : List UserUpdate) (ms : List String)
      → NoDup ms
      → has user_id ms ≡ true
      → Fanned t ms us
      → (latest : ℕ) × IsLatest user_id t latest × Only ((latest + 1) % 2 ^ 32) us
  Fanned-Only t us [] d h f = cc
  Fanned-Only t [] (m ∷ ms) d h f = absurd f
  Fanned-Only t (u ∷ us) (m ∷ ms) d h (same, (latest, top, seq), rest) =
      elim (Bool-cases (str_eq user_id m)) [
        | inl here ↦
            let it : user_id ≡ m = (eq_iff user_id m).0 here in
            let none_later : All (λ (x : UserUpdate). str_eq x.user_id user_id ≡ false) us =
              Fanned-others t us ms (rw it d.0) rest in
            (
              latest,
              rw it top,
              (
                u,
                inl refl,
                (eq_iff u.user_id user_id).1 (same ∙ sym it),
                seq,
                λ x mx passes. elim mx [
                  | inl e ↦ ap (λ (y : UserUpdate). y.seq) e ∙ seq
                  | inr later ↦
                      clash
                        (All-In (λ (y : UserUpdate). str_eq y.user_id user_id ≡ false) us none_later
                          x later)
                        passes
                ],
              ),
            )
        | inr there ↦
            let (l, top', (v, m', passes, seq', all)) =
              Fanned-Only t us ms d.1 (rw there at h) rest in
            (
              l,
              top',
              (
                v,
                inr m',
                passes,
                seq',
                λ x mx passes_x. elim mx [
                  | inl e ↦ absurd (not_first x e passes_x there)
                  | inr later ↦ all x later passes_x
                ],
              ),
            )
      ]
    where
      clash : {b : Bool} {A : Type 0} → b ≡ false → b ≡ true → A
      clash e h = cc

      not_first :
          (x : UserUpdate) → x ≡ u → str_eq x.user_id user_id ≡ true → str_eq user_id m ≡ false → ⊥
      not_first x e p q =
          let xm : user_id ≡ m =
            sym ((eq_iff x.user_id user_id).0 p) ∙ ap (λ (y : UserUpdate). y.user_id) e ∙ same in
          cc ((eq_iff user_id m).1 xm, q)

  IsLatest-append :
      (t us : List UserUpdate) (latest seq : ℕ)
      → IsLatest user_id t latest
      → latest < seq
      → Only seq us
      → IsLatest user_id (t ++ us) seq
  IsLatest-append t us latest seq top lt (v, m, passes, at_seq, all) = record {
    above = λ x mx passes_x. elim (In-append x t us mx) [
      | inl old ↦ omega (arith, top.above x old passes_x)
      | inr new ↦ omega (arith, all x new passes_x)
    ];
    reached = inr (v, In-append_right v t us m, passes, at_seq);
  }

  IsLatest-others :
      (t us : List UserUpdate) (latest : ℕ)
      → IsLatest user_id t latest
      → All (λ u. str_eq u.user_id user_id ≡ false) us
      → IsLatest user_id (t ++ us) latest
  IsLatest-others t us latest top none_new = record {
    above = λ x mx passes_x. elim (In-append x t us mx) [
      | inl old ↦ top.above x old passes_x
      | inr new ↦
          cc (All-In (λ (y : UserUpdate). str_eq y.user_id user_id ≡ false) us none_new x new)
    ];
    reached = elim top.reached [
      | inl zero ↦ inl zero
      | inr (r, m, passes, same) ↦ inr (r, In-append_left r t us m, passes, same)
    ];
  }

-- Where each of distinct members gets an update at the seq after the latest, the latest seq of a member
-- is one more than it was, and that of any other user is what it was.
pub Fanned-IsLatest :
    (ms : List String) (t us : List UserUpdate)
    → Fanned t ms us
    → NoDup ms
    → (user_id : String) (latest : ℕ) → IsLatest user_id t latest
    → latest + 1 < 2 ^ 32
    → IsLatest user_id (t ++ us) (if has user_id ms then latest + 1 else latest)
Fanned-IsLatest ms t us fanned d user_id latest top small = elim (Bool-cases (has user_id ms)) [
  | inl member ↦
      let (l, top', only) = Fanned-Only user_id t us ms d member fanned in
      let same : l ≡ latest = omega (
        arith,
        IsMax-le (λ (u : UserUpdate). u.seq) (λ u. str_eq u.user_id user_id) t l latest top' top,
        IsMax-le (λ (u : UserUpdate). u.seq) (λ u. str_eq u.user_id user_id) t latest l top top',
      ) in
      let next : (l + 1) % 2 ^ 32 ≡ latest + 1 = omega arith in
      rw member
        (IsLatest-append user_id t us latest (latest + 1) top (omega arith) (rw next at only))
  | inr other ↦
      rw other
        (IsLatest-others user_id t us latest top (Fanned-others user_id t us ms other fanned))
]
