-- ===== src/Manager/Pending.antt =====
-- The loop of src/manager.rs over the entries for links: which units it takes over, and which
-- links are errors.
use rtrtr.Base.{
  ℕ, ◌≡◌, refl, sym, ap, ◌∙◌, Bool, true, false, ◌&&◌, List, [], ◌∷◌, ◌++◌, some, arith, All,
  if◌then◌else◌, length, ◌<◌, Bool-cases, inl, inr,
}
use rtrtr.Text.{Text, same_text}
use rtrtr.Text.Trim.{same_text_iff}
use rtrtr.Manager.{lookup, insert, has, LoadUnit, Manager, resolve}
use rtrtr.Manager.Loading.{AllNew, Distinct, agent_of, names_of}

-- All of the names are among the names.
abbrev pub all_in : List Text → List Text → Bool
all_in [] names = true
all_in (n ∷ ns) names = if has n names then all_in ns names else false

abbrev pub is_nil {ℓ} : {A : Type ℓ} → List A → Bool
is_nil [] = true
is_nil (x ∷ xs) = false

is_nil-append {ℓ} : {A : Type ℓ} (xs ys : List A) → 0 < length ys → is_nil (xs ++ ys) ≡ false
is_nil-append [] [] h = absurd (omega arith)
is_nil-append [] (y ∷ ys) h = refl
is_nil-append (x ∷ xs) ys h = refl

lookup-insert {ℓ} :
    {V : Type ℓ} (n k : Text) (v : V) (m : List (Text × V))
    → lookup n (insert k v m) ≡ (if same_text k n then some v else lookup n m)
unfolding lookup insert
lookup-insert n k v [] = refl
lookup-insert n k v ((j, w) ∷ m) =
    ground (arith, lookup-insert n k v m, same_text_iff j k, same_text_iff k n, same_text_iff j n)

module _ {Mark : Type 0} (names : List Text) where
  -- The steps of `resolve` for a new entry.
  resolve-in :
      (n : Text) (u : LoadUnit Mark) (es : List (Text × LoadUnit Mark)) (m : Manager)
      (errs : List Mark)
      → u.gate ≡ some u.agent
      → has n names ≡ true
      → resolve names ((n, u) ∷ es) m errs
        ≡ resolve names es
            (record { units = insert n u.agent m.units; pending = insert n u.agent m.pending })
            errs
  unfolding resolve
  resolve-in n u es m errs g h = rw (g, resolve) (rw h refl)

  resolve-out :
      (n : Text) (u : LoadUnit Mark) (es : List (Text × LoadUnit Mark)) (m : Manager)
      (errs : List Mark)
      → u.gate ≡ some u.agent
      → has n names ≡ false
      → resolve names ((n, u) ∷ es) m errs ≡ resolve names es m (errs ++ u.links)
  unfolding resolve
  resolve-out n u es m errs g h = rw (g, resolve) (rw h refl)

  pub resolve-errors :
      (es : List (Text × LoadUnit Mark)) (m : Manager) (errs : List Mark)
      → AllNew es
      → is_nil (resolve names es m errs).1 ≡ is_nil errs && all_in (names_of es) names
  unfolding names_of resolve
  resolve-errors [] m errs h = ground arith
  resolve-errors ((n, u) ∷ es) m errs h = elim (Bool-cases (has n names)) [
    | inl e ↦
        ap (λ r. is_nil r.1) (resolve-in n u es m errs h.0.own_gate e)
        ∙ resolve-errors es
            (record { units = insert n u.agent m.units; pending = insert n u.agent m.pending }) errs
            h.1
        ∙ rw e refl
    | inr e ↦
        ap (λ r. is_nil r.1) (resolve-out n u es m errs h.0.own_gate e)
        ∙ resolve-errors es m (errs ++ u.links) h.1
        ∙ ground (arith, is_nil-append errs u.links h.0.linked, e)
  ]

  resolve-keeps :
      (es : List (Text × LoadUnit Mark)) (m : Manager) (errs : List Mark) (n : Text) (id : ℕ)
      → AllNew es
      → has n (names_of es) ≡ false
      → lookup n m.pending ≡ some id
      → lookup n (resolve names es m errs).0.pending ≡ some id
  unfolding names_of has resolve
  resolve-keeps [] m errs n id h f e = e
  resolve-keeps ((k, u) ∷ es) m errs n id h f e = elim (Bool-cases (has k names)) [
    | inl i ↦
        ap (λ r. lookup n r.0.pending) (resolve-in k u es m errs h.0.own_gate i)
        ∙ resolve-keeps es
            (record { units = insert k u.agent m.units; pending = insert k u.agent m.pending }) errs
            n id h.1 (ground (arith, f)) (ground (arith, lookup-insert n k u.agent m.pending, f, e))
    | inr i ↦
        ap (λ r. lookup n r.0.pending) (resolve-out k u es m errs h.0.own_gate i)
        ∙ resolve-keeps es m (errs ++ u.links) n id h.1 (ground (arith, f)) e
  ]

  resolve-pending :
      (es : List (Text × LoadUnit Mark)) (m : Manager) (errs : List Mark) (n : Text) (id : ℕ)
      → AllNew es
      → Distinct es
      → has n names ≡ true
      → agent_of n es ≡ some id
      → lookup n (resolve names es m errs).0.pending ≡ some id
  unfolding agent_of
  resolve-pending [] m errs n id h d i e = cc e
  resolve-pending ((k, u) ∷ es) m errs n id h d i e = elim (Bool-cases (same_text k n)) [
    | inl t ↦
        let same : k ≡ n = (same_text_iff k n).0 t in
        let agent : u.agent ≡ id = ground (arith, t, e) in
        let known : has k names ≡ true = ap (λ j. has j names) same ∙ i in
        let fresh : has n (names_of es) ≡ false = ap (λ j. has j (names_of es)) (sym same) ∙ d.0 in
        ap (λ r. lookup n r.0.pending) (resolve-in k u es m errs h.0.own_gate known)
        ∙ resolve-keeps es
            (record { units = insert k u.agent m.units; pending = insert k u.agent m.pending }) errs
            n id h.1 fresh (lookup-insert n k u.agent m.pending ∙ ground (arith, t, agent))
    | inr t ↦
        let later : agent_of n es ≡ some id = ground (arith, t, e) in
        elim (Bool-cases (has k names)) [
          | inl j ↦
              ap (λ r. lookup n r.0.pending) (resolve-in k u es m errs h.0.own_gate j)
              ∙ resolve-pending es
                  (record {
                    units = insert k u.agent m.units;
                    pending = insert k u.agent m.pending;
                  })
                  errs n id h.1 d.1 i later
          | inr j ↦
              ap (λ r. lookup n r.0.pending) (resolve-out k u es m errs h.0.own_gate j)
              ∙ resolve-pending es m (errs ++ u.links) n id h.1 d.1 i later
        ]
  ]

  pub pending-resolve :
      (es : List (Text × LoadUnit Mark)) (m : Manager) (errs : List Mark) (links : List (Text × ℕ))
      → AllNew es
      → Distinct es
      → All (λ l. agent_of l.0 es ≡ some l.1) links
      → All (λ l. has l.0 names ≡ true) links
      → All (λ l. lookup l.0 (resolve names es m errs).0.pending ≡ some l.1) links
  pending-resolve es m errs [] h d a i = tt
  pending-resolve es m errs ((n, id) ∷ links) h d a i =
      (resolve-pending es m errs n id h d i.0 a.0, pending-resolve es m errs links h d a.1 i.1)
