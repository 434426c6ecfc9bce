-- ===== src/Database/Tx/Keeps.antt =====
-- Rules for what a transaction's statements leave alone, one for each way to build an action.
use fulfill_os.Prelude.{◌≡◌, refl, ◌∙◌, sym, inl, inr}
use fulfill_os.Database.Thrown.{Thrown}
use fulfill_os.Database.Tx.{ok, err, Tx, ◌>>=◌, pure, gets, Result-cases}

-- Where `m` succeeds, the part `part` of the state is as before.
pub record Keeps {S A X : Type 0} (part : S → X) (m : Tx S A) : Type 0 where
  pub at : (s s' : S) (a : A) → m s ≡ ok (a, s') → part s' ≡ part s

module _ {S : Type 0} where
  -- A bind after a step that succeeds, and after one that throws.
  bind-ok :
      {A B : Type 0} (m : Tx S A) (f : A → Tx S B) (s s1 : S) (a : A)
      → m s ≡ ok (a, s1)
      → (m >>= f) s ≡ f a s1
  bind-ok m f s s1 a e = rw e refl

  bind-err :
      {A B : Type 0} (m : Tx S A) (f : A → Tx S B) (s : S) (x : Thrown)
      → m s ≡ err x
      → (m >>= f) s ≡ err x
  bind-err m f s x e = rw e refl

module _ {S X : Type 0} {part : S → X} where
  pub Keeps-pure : {A : Type 0} (a : A) → Keeps part (pure a)
  Keeps-pure a = record { at = λ s s' b h. cc }

  pub Keeps-gets : {A : Type 0} (f : S → A) → Keeps part (gets f)
  Keeps-gets f = record { at = λ s s' b h. cc }

  pub Keeps-bind :
      {A B : Type 0} (m : Tx S A) (f : A → Tx S B)
      → Keeps part m
      → ((a : A) → Keeps part (f a))
      → Keeps part (m >>= f)
  Keeps-bind m f km kf = record {
    at = λ s s' b h. elim (Result-cases (m s)) [
      | inl ((a, s1), e) ↦ (kf a).at s1 s' b (sym (bind-ok m f s s1 a e) ∙ h) ∙ km.at s s1 a e
      | inr (x, e) ↦ cc (bind-err m f s x e)
    ];
  }

pub ruleset keeps_rules = (Keeps-pure, Keeps-gets, Keeps-bind)
