-- ===== src/Postgres/Moves.antt =====
-- Relations between the database before and behind a method, and how they follow from the
-- statements that the method is made of.
use xiesg0915_work.Prelude.{
  Bool, true, false, ◌≡◌, refl, Option, none, some, List, [], ◌∷◌, ◌⊎◌, inl, inr,
}
use xiesg0915_work.Result.{Error, Result, ok, err, Exec, pure, require, continue, ◌>>=◌}
use xiesg0915_work.Postgres.Database.{
  Database, Fault, Answer, done, fault, Statement, guarded, answered, execute, Wire, committed,
  transaction,
}
use xiesg0915_work.Postgres.Assets.{fetch, returned}

-- What one step guarantees, also of no step and of two in a row.
pub record Preorder (R : Database → Database → Type 0) : Type 0 where
  pub reflexive : (a : Database) → R a a
  pub transitive : (a b c : Database) → R a b → R b c → R a c

-- Every constraint of a statement holds.
abbrev pub AllPass : List (Bool × Fault) → Type 0
AllPass [] = Unit
AllPass ((b, f) ∷ cs) = (b ≡ true) × AllPass cs

guarded-cases {ℓ} :
    {A : Type ℓ} (cs : List (Bool × Fault)) (x : A)
    → (AllPass cs × (guarded cs x ≡ done x)) ⊎ ((f : Fault) × (guarded cs x ≡ fault f))
unfolding guarded
guarded-cases [] x = inl (tt, refl)
guarded-cases ((false, f) ∷ cs) x = inr (f, refl)
guarded-cases ((true, f) ∷ cs) x = elim (guarded-cases cs x) [
  | inl p ↦ inl ((refl, p.0), p.1)
  | inr q ↦ inr q
]

pub guarded-passes {ℓ} :
    {A : Type ℓ} (cs : List (Bool × Fault)) (x : A) → AllPass cs → guarded cs x ≡ done x
unfolding guarded
guarded-passes [] x h = refl
guarded-passes ((true, f) ∷ cs) x h = guarded-passes cs x h.1
guarded-passes ((false, f) ∷ cs) x h = cc

-- Whatever a method returns, it leaves a related database.
pub record Moves {A : Type 0} (R : Database → Database → Type 0) (m : Exec Database A)
    : Type 0 where
  pub leaves : (db : Database) → R db (m db).1

abbrev pub LeadsTo :
    {A : Type 0} → (Database → Database → Type 0) → Database → Answer (A × Database) → Type 0
LeadsTo R db (done (a, db')) = R db db'
LeadsTo R db (fault f) = Unit

-- An answer leaves a database that `db` is related to.
pub record Leads {A : Type 0} (R : Database → Database → Type 0) (db : Database)
    (x : Answer (A × Database)) : Type 0 where
  pub reached : LeadsTo R db x

module _ {R : Database → Database → Type 0} (o : Preorder R) where
  answered-LeadsTo :
      {A : Type 0} (to_error : Fault → Error) (db : Database) (x : Answer (A × Database))
      → LeadsTo R db x
      → R db (answered to_error db x).1
  answered-LeadsTo to_error db (done (a, db')) h = h
  answered-LeadsTo to_error db (fault f) h = o.reflexive db

  pub execute-Moves :
      {A : Type 0} (to_error : Fault → Error) (s : Statement A)
      → ((db : Database) → Leads R db (s db))
      → Moves R (execute to_error s)
  execute-Moves to_error s h = record {
    leaves = λ db. answered-LeadsTo to_error db (s db) (h db).reached;
  }

  pub guarded-Leads :
      {A : Type 0} (cs : List (Bool × Fault)) (db db' : Database) (a : A)
      → (AllPass cs → R db db')
      → Leads R db (guarded cs (a, db'))
  guarded-Leads {A = A} cs db db' a h = elim (guarded-cases {A = A × Database} cs (a, db')) [
    | inl (p, e) ↦ record { reached = rw e (h p) }
    | inr (f, e) ↦ record { reached = rw e tt }
  ]

  continued :
      {A B : Type 0} (db db' : Database) (r : Result A) (f : A → Exec Database B)
      → R db db'
      → ((a : A) → Moves R (f a))
      → R db (continue r f db').1
  continued db db' (ok a) f h k = o.transitive db db' _ h ((k a).leaves db')
  continued db db' (err e) f h k = h

  pub >>=-Moves :
      {A B : Type 0} (m : Exec Database A) (f : A → Exec Database B)
      → Moves R m
      → ((a : A) → Moves R (f a))
      → Moves R (m >>= f)
  >>=-Moves m f h k = record { leaves = λ db. continued db (m db).1 (m db).0 f (h.leaves db) k }

  -- A computation that reads and does not write.
  pub still-Moves :
      {A : Type 0} (m : Exec Database A) → ((db : Database) → (m db).1 ≡ db) → Moves R m
  still-Moves m e = record { leaves = λ db. rw (e db) (o.reflexive db) }

  pub require-Moves : (b : Bool) (e : Error) → Moves R (require b e)
  require-Moves true e = record { leaves = λ db. o.reflexive db }
  require-Moves false e = record { leaves = λ db. o.reflexive db }

  pub fetch-Moves :
      {A : Type 0} (to_error : Fault → Error) (x : Option A) → Moves R (execute to_error (fetch x))
  fetch-Moves to_error none = record { leaves = λ db. o.reflexive db }
  fetch-Moves to_error (some a) = record { leaves = λ db. o.reflexive db }

  pub returned-Moves : {A : Type 0} (x : Option A) → Moves R (returned x)
  returned-Moves none = record { leaves = λ db. o.reflexive db }
  returned-Moves (some a) = record { leaves = λ db. o.reflexive db }

  pub pure-Moves : {A : Type 0} (a : A) → Moves R (pure a)
  pure-Moves a = record { leaves = λ db. o.reflexive db }

  committed-lem :
      {A : Type 0} (wire : Wire) (db db' : Database) (r : Result A)
      → R db db'
      → R db (committed wire db (r, db')).1
  committed-lem Wire.down db db' r h = o.reflexive db
  committed-lem Wire.up db db' (ok a) h = h
  committed-lem Wire.up db db' (err e) h = o.reflexive db
  committed-lem Wire.answer_lost db db' (ok a) h = h
  committed-lem Wire.answer_lost db db' (err e) h = o.reflexive db

  pub transaction-Moves :
      {A : Type 0} (wire : Wire) (body : Exec Database A)
      → Moves R body
      → Moves R (transaction wire body)
  unfolding transaction
  transaction-Moves wire body h = record {
    leaves = λ db. committed-lem wire db (body db).1 (body db).0 (h.leaves db);
  }
