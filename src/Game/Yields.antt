-- ===== src/Game/Yields.antt =====
-- What an action of a game yields: that it is on its way, and a condition on what it returns.
use codenames_llm_bias.Shared.{
  ◌≤◌, ◌≡◌, refl, ◌∙◌, Bool, true, false, if◌then◌else◌, Option, none, some, arith,
}
use codenames_llm_bias.Schemas.State.{GameState}
use codenames_llm_bias.Recorder.{GameRecorder}
use codenames_llm_bias.Game.Table.{
  Table, Raised, Outcome, done, raised, Act, pure, raise, ◌>>=◌, gets, or_raise, write_record,
  try_record,
}
use codenames_llm_bias.Game.Conductor.{when}
use codenames_llm_bias.Game.Onward.{
  is_expected, IsGood, IsOnward, left, IsSteady, pure-IsSteady, or_raise-IsSteady, record_IsGood,
}

module _ {A : Type 0} where
  abbrev pub Post : (A → Table → Type 0) → Outcome A × Table → Type 0
  Post q (done a, t) = q a t
  Post q (raised x, t) = Unit

  abbrev pub Yields : Table → (A → Table → Type 0) → Outcome A × Table → Type 0
  Yields t q x = IsOnward t x × Post q x

module _ {A B : Type 0} (m : Act A) (f : A → Act B) (t : Table) (r : A → Table → Type 0)
    (q : B → Table → Type 0) where
  pub >>=-Yields :
      Yields t r (m t)
      → ((a : A) (t' : Table) → r a t' → IsGood t' → left t' ≤ left t → Yields t' q (f a t'))
      → Yields t q ((m >>= f) t)
  unfolding ◌>>=◌
  >>=-Yields y k = by_outcome (m t) y
    where
      by_outcome :
          (x : Outcome A × Table)
          → Yields t r x
          → Yields t q (elim x.0 [ done a ↦ f a x.1 | raised y ↦ raise {A = B} y x.1 ])
      by_outcome (done a, t') (o, p) =
          let (o', p') = k a t' p o.good o.fewer in
          (record { good = o'.good; fewer = omega (arith, o'.fewer, o.fewer); fine = o'.fine }, p')
      by_outcome (raised y, t') (o, p) =
          (record { good = o.good; fewer = o.fewer; fine = o.fine }, tt)

-- An action that leaves the engine as it is.
abbrev pub IsQuiet : {A : Type 0} → Act A → Type 0
IsQuiet m = (t : Table) → IsGood t → Yields t (λ _ t'. t'.engine ≡ t.engine) (m t)

pub pure-IsQuiet : {A : Type 0} (a : A) → IsQuiet (pure a)
pure-IsQuiet a t g = ((pure-IsSteady a t g).0, refl)

pub >>=-IsQuiet :
    {A B : Type 0} (m : Act A) (f : A → Act B)
    → IsQuiet m
    → ((a : A) → IsQuiet (f a))
    → IsQuiet (m >>= f)
>>=-IsQuiet {A} {B} m f hm hf t g =
    >>=-Yields m f t _ _ (hm t g) (λ a t' q g' l. moved a t' q (hf a t' g'))
  where
    moved :
        (a : A) (t' : Table)
        → t'.engine ≡ t.engine
        → Yields t' (λ _ t''. t''.engine ≡ t'.engine) (f a t')
        → Yields t' (λ _ t''. t''.engine ≡ t.engine) (f a t')
    moved a t' q (o, p) = (o, by_outcome (f a t') p)
      where
        by_outcome :
            (x : Outcome B × Table)
            → Post (λ _ t''. t''.engine ≡ t'.engine) x
            → Post (λ _ t''. t''.engine ≡ t.engine) x
        by_outcome (done b, t'') p = p ∙ q
        by_outcome (raised y, t'') p = tt

pub or_raise-IsQuiet :
    {A : Type 0} (o : Option A) (x : Raised) → is_expected x ≡ true → IsQuiet (or_raise o x)
or_raise-IsQuiet none x h t g = ((or_raise-IsSteady none x h t g).0, tt)
or_raise-IsQuiet (some a) x h t g = ((or_raise-IsSteady (some a) x h t g).0, refl)

pub write_record-IsQuiet : (f : GameRecorder → GameRecorder) → IsQuiet (write_record f)
write_record-IsQuiet f t g =
    (record { good = record_IsGood t _ g; fewer = omega arith; fine = tt }, refl)

pub try_record-IsQuiet : (f : GameRecorder → Option GameRecorder) → IsQuiet (try_record f)
try_record-IsQuiet f t g = by_result (f t.recorder)
  where
    by_result :
        (o : Option GameRecorder)
        → Yields {A = Unit {0}} t
            (λ _ t'. t'.engine ≡ t.engine)
            (elim o [
              | none ↦ (raised Raised.no_turn_open, t)
              | some r ↦ (done tt, record t { recorder = r })
            ])
    by_result none = (record { good = g; fewer = omega arith; fine = refl }, tt)
    by_result (some r) =
        (record { good = record_IsGood t r g; fewer = omega arith; fine = tt }, refl)

pub when-IsQuiet : (b : Bool) (m : Act (Unit {0})) → IsQuiet m → IsQuiet (when b m)
when-IsQuiet true m h = h
when-IsQuiet false m h = pure-IsQuiet tt

-- After a quiet action the engine is the one of before.
pub quiet->>=-Yields :
    {A B : Type 0} (m : Act A) (k : A → Act B) (t : Table) (q : B → Table → Type 0)
    → IsQuiet m
    → IsGood t
    → ((a : A) (t' : Table) → t'.engine ≡ t.engine → IsGood t' → Yields t' q (k a t'))
    → Yields t q ((m >>= k) t)
quiet->>=-Yields m k t q h g y =
    >>=-Yields m k t (λ _ t'. t'.engine ≡ t.engine) q (h t g) (λ a t' e g' _. y a t' e g')

-- Reading the state changes nothing.
pub state->>=-Yields :
    {A : Type 0} (k : GameState → Act A) (t : Table) (q : A → Table → Type 0)
    → Yields t q (k t.engine.state t)
    → Yields t q ((gets (λ t. t.engine.state) >>= k) t)
unfolding ◌>>=◌
state->>=-Yields k t q y = y

-- A steady action leaves the phase.
pub steady->>=-Yields :
    {A B : Type 0} (m : Act A) (k : A → Act B) (t : Table) (q : B → Table → Type 0)
    → IsSteady m
    → IsGood t
    → ((a : A) (t' : Table)
        → t'.engine.state.current_phase ≡ t.engine.state.current_phase
        → IsGood t'
        → left t' ≤ left t
        → Yields t' q (k a t'))
    → Yields t q ((m >>= k) t)
steady->>=-Yields {A} m k t q h g y =
    >>=-Yields m k t same_phase q ((h t g).0, by_outcome (m t) (h t g).1) y
  where
    same_phase : A → Table → Type 0
    same_phase _ t' = t'.engine.state.current_phase ≡ t.engine.state.current_phase

    by_outcome :
        (x : Outcome A × Table)
        → x.1.engine.state.current_phase ≡ t.engine.state.current_phase
        → Post same_phase x
    by_outcome (done a, t') s = s
    by_outcome (raised z, t') s = tt

pub state->>=-IsQuiet :
    {A : Type 0} (k : GameState → Act A)
    → ((s : GameState) → IsQuiet (k s))
    → IsQuiet (gets (λ t. t.engine.state) >>= k)
state->>=-IsQuiet k h t g = state->>=-Yields k t _ (h t.engine.state t g)

pub if-Yields :
    {A : Type 0} (b : Bool) (x y : Outcome A × Table) (t : Table) (q : A → Table → Type 0)
    → (b ≡ true → Yields t q x)
    → (b ≡ false → Yields t q y)
    → Yields t q (if b then x else y)
if-Yields true x y t q hx hy = hx refl
if-Yields false x y t q hx hy = hy refl
