-- ===== src/World/Held.antt =====
-- Objects that are there in a reliable cluster.
use build_operator.Prelude.{◌≡◌, ◌∙◌, some}
use build_operator.Exec.{Result}
use build_operator.Kube.Meta.{Key}
use build_operator.World.{World, Kind, Object}
use build_operator.World.Laws.{View, IsReliable, IsPut}

-- An object with the property is there.
abbrev pub Holds : (W : World) → View W → (k : Kind) → Key → (Object k → Type 0) → W.State → Type 0
Holds W peek k key P t = (o : Object k) × (peek k key t ≡ some o) × P o

module _ (W : World) (R : IsReliable W) where
  pub put-Holds :
      {k : Kind} {key : Key} {s : W.State} {r : Result (Unit {0}) × W.State} (P : Object k → Type 0)
      → IsPut W R.peek k key P s r
      → Holds W R.peek k key P r.1
  put-Holds P p = (p.object, p.present, p.agrees)

  pub Holds-same :
      (k : Kind) (key : Key) (P : Object k → Type 0) (s t : W.State)
      → R.peek k key t ≡ R.peek k key s
      → Holds W R.peek k key P s
      → Holds W R.peek k key P t
  Holds-same k key P s t e (o, there, p) = (o, e ∙ there, p)

  pub IsPut-key :
      {k : Kind} {a c : Key} {s : W.State} {r : Result (Unit {0}) × W.State} (P : _)
      → a ≡ c
      → IsPut W R.peek k a P s r
      → IsPut W R.peek k c P s r
  IsPut-key P e p = rw e at p
