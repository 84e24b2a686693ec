-- ===== src/Server/Stores/RemoteCallings/Evolves.antt =====
-- What an operation of internal/store/remote_calling.go may do to a row.
use xyncra_server.Common.{
  ℕ, ◌≡◌, refl, ap, sym, ◌∙◌, ◌≢◌, ◌⊎◌, if◌then◌else◌, String, Bool, true, false, ◌&&◌, Option,
  List, [], ◌∷◌, inl, inr, arith, str_eq, In, In-append_left, In-append, All, All-In, eq_iff, ◌++◌,
  Bool-cases,
}
use xyncra_server.Sql.{update_rows}
use xyncra_server.Sql.Rows.{update_rows-In, In-update_rows}
use xyncra_server.Server.Model.{RemoteCalling}
use xyncra_server.Server.Stores.RemoteCallings.{
  status_pending, is_live, is_pending, deleted, clashes,
}

-- How a call ended, or that it has not.
pub record Outcome : Type 0 where
  pub status : String
  pub result : String
  pub error_message : String
  pub success : Bool
  pub resolved_at : Option ℕ
  pub cancelled_at : Option ℕ
  pub cancelled_by : String
  pub cancel_reason : String

abbrev pub outcome : RemoteCalling → Outcome
outcome rc = record {
  status = rc.status;
  result = rc.result;
  error_message = rc.error_message;
  success = rc.success;
  resolved_at = rc.resolved_at;
  cancelled_at = rc.cancelled_at;
  cancelled_by = rc.cancelled_by;
  cancel_reason = rc.cancel_reason;
}

-- A call keeps what it is, and once it is no longer pending, how it ended; a deleted one is not touched.
pub record Evolves (a b : RemoteCalling) : Type 0 where
  pub id : b.id ≡ a.id
  pub conversation_id : b.conversation_id ≡ a.conversation_id
  pub checkpoint_id : b.checkpoint_id ≡ a.checkpoint_id
  pub agent_id : b.agent_id ≡ a.agent_id
  pub final : str_eq a.status status_pending ≡ false → outcome b ≡ outcome a
  pub gone : is_live a ≡ false → b ≡ a

pub Evolves-refl : (a : RemoteCalling) → Evolves a a
Evolves-refl a = record {
  id = refl;
  conversation_id = refl;
  checkpoint_id = refl;
  agent_id = refl;
  final = λ h. refl;
  gone = λ h. refl;
}

pub Evolves-trans : (a b c : RemoteCalling) → Evolves a b → Evolves b c → Evolves a c
Evolves-trans a b c h k = record {
  id = k.id ∙ h.id;
  conversation_id = k.conversation_id ∙ h.conversation_id;
  checkpoint_id = k.checkpoint_id ∙ h.checkpoint_id;
  agent_id = k.agent_id ∙ h.agent_id;
  final = λ ended.
      let same = h.final ended in k.final (rw (ap (λ (o : Outcome). o.status) same) ended) ∙ same;
  gone = λ dead. let same = h.gone dead in k.gone (rw same dead) ∙ same;
}

-- Every row has a row that it has become, and the others have new ids.
pub record Changed (t t' : List RemoteCalling) : Type 0 where
  pub kept : (a : RemoteCalling) → In a t → (b : RemoteCalling) × In b t' × Evolves a b
  pub origin :
      (b : RemoteCalling)
      → In b t'
      → ((a : RemoteCalling) × In a t × Evolves a b) ⊎ ((a : RemoteCalling) → In a t → b.id ≢ a.id)

pub Changed-refl : (t : List RemoteCalling) → Changed t t
Changed-refl t = record {
  kept = λ a m. (a, m, Evolves-refl a);
  origin = λ b m. inl (b, m, Evolves-refl b);
}

pub Changed-trans : (t t' t'' : List RemoteCalling) → Changed t t' → Changed t' t'' → Changed t t''
Changed-trans t t' t'' h k = record {
  kept = λ a m.
      let (b, mb, ab) = h.kept a m in
      let (c, mc, bc) = k.kept b mb in (c, mc, Evolves-trans a b c ab bc);
  origin = λ c m. elim (k.origin c m) [
    | inl (b, mb, bc) ↦ elim (h.origin b mb) [
      | inl (a, ma, ab) ↦ inl (a, ma, Evolves-trans a b c ab bc)
      | inr new ↦ inr (λ a ma same. new a ma (sym bc.id ∙ same))
    ]
    | inr new ↦ inr (λ a ma same. let (b, mb, ab) = h.kept a ma in new b mb (same ∙ sym ab.id))
  ];
}

module _ (p : RemoteCalling → Bool) (f : RemoteCalling → RemoteCalling)
    (step : (r : RemoteCalling) → p r ≡ true → Evolves r (f r)) where
  row-Evolves : (x : RemoteCalling) → Evolves x (if p x then f x else x)
  row-Evolves x = elim (Bool-cases (p x)) [
    | inl passes ↦ rw passes (step x passes)
    | inr fails ↦ rw fails (Evolves-refl x)
  ]

  pub update_rows-Changed : (t : List RemoteCalling) → Changed t (update_rows p f t)
  update_rows-Changed t = record {
    kept = λ a m. (if p a then f a else a, update_rows-In p f t a m, row-Evolves a);
    origin =
        λ b m. let (a, ma, same) = In-update_rows p f t b m in inl (a, ma, rw same (row-Evolves a));
  }

pub new-Changed :
    (r : RemoteCalling) (t : List RemoteCalling)
    → All (λ x. clashes r x ≡ false) t
    → Changed t (t ++ r ∷ [])
new-Changed r t fresh = record {
  kept = λ a m. (a, In-append_left a t (r ∷ []) m, Evolves-refl a);
  origin = λ b m. elim (In-append b t (r ∷ []) m) [
    | inl old ↦ inl (b, old, Evolves-refl b)
    | inr (inl same) ↦ inr (λ a ma same_id.
        let clash = All-In (λ x. clashes r x ≡ false) t fresh a ma in
        let equal = (eq_iff r.id a.id).1 (ap (λ (x : RemoteCalling). x.id) (sym same) ∙ same_id) in
        cc (clash, equal))
    | inr (inr none) ↦ absurd none
  ];
}

-- A change of a pending call that keeps what it is.
pub pending-Evolves :
    (r s : RemoteCalling)
    → is_pending r ≡ true
    → s.id ≡ r.id
    → s.conversation_id ≡ r.conversation_id
    → s.checkpoint_id ≡ r.checkpoint_id
    → s.agent_id ≡ r.agent_id
    → Evolves r s
pending-Evolves r s h id conversation_id checkpoint_id agent_id = record {
  id = id;
  conversation_id = conversation_id;
  checkpoint_id = checkpoint_id;
  agent_id = agent_id;
  final = λ ended. absurd (ground arith);
  gone = λ dead. absurd (ground arith);
}

pub deleted-Evolves : (now : ℕ) (r : RemoteCalling) → is_live r ≡ true → Evolves r (deleted now r)
deleted-Evolves now r h = record {
  id = refl;
  conversation_id = refl;
  checkpoint_id = refl;
  agent_id = refl;
  final = λ ended. refl;
  gone = λ dead. cc (h, dead);
}

-- What is no longer pending is not among the pending ones.
pub and-and_false : (a b : Bool) → (a && (b && false)) ≡ false
and-and_false true true = refl
and-and_false true false = refl
and-and_false false b = refl
