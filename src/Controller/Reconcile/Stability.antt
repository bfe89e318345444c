-- ===== src/Controller/Reconcile/Stability.antt =====
-- What every part of a reconciliation keeps: that the next one finds what it needs.
use build_operator.Prelude.{◌≡◌, ◌∙◌, inl}
use build_operator.Exec.{Result}
use build_operator.Kube.Meta.{Key}
use build_operator.Template.{BuildkitBuilderTemplateSpec}
use build_operator.Builder.{BuildkitBuilder}
use build_operator.Controller.Tls.Creation.{IsReadable, IsReadable-same}
use build_operator.Controller.Reconcile.SetUp.{IsSetUp}
use build_operator.Controller.Reconcile.Reports.{Stays, Stays-same, Stays-trans, IsReported}
use build_operator.World.{World, builder, template, secret, stateful_set}
use build_operator.World.Laws.{IsReliable, IsPut, IsUnchanged}

module _ (W : World) (R : IsReliable W) where
  -- No template has changed, the builder is there still with its spec, and the authority of its
  -- namespace is absent or parses if it was or did.
  pub record IsStable (b : BuildkitBuilder) (s t : W.State) : Type 0 where
    pub templates : (key : Key) → R.peek template key t ≡ R.peek template key s
    pub stays : Stays W R b s t
    pub readable : IsReadable W R b.meta.namespace s → IsReadable W R b.meta.namespace t

  pub IsStable-trans :
      (b : BuildkitBuilder) (s t u : W.State) → IsStable b s t → IsStable b t u → IsStable b s u
  IsStable-trans b s t u p q = record {
    templates = λ key. q.templates key ∙ p.templates key;
    stays = Stays-trans W R b s t u p.stays q.stays;
    readable = λ before. q.readable (p.readable before);
  }

  pub unchanged-IsStable :
      (b : BuildkitBuilder) (s t : W.State) → IsUnchanged W R.peek s t → IsStable b s t
  unchanged-IsStable b s t still = record {
    templates = λ key. still template key;
    stays = Stays-same W R b s t (λ key. still builder key);
    readable = IsReadable-same W R b.meta.namespace s t (still secret _);
  }

  pub set_up-IsStable :
      (b : BuildkitBuilder) (spec : BuildkitBuilderTemplateSpec) (s : W.State)
      (r : Result (Unit {0}) × W.State)
      → IsSetUp W R b spec s r
      → IsStable b s r.1
  set_up-IsStable b spec s r p = record {
    templates = p.templates;
    stays = Stays-same W R b s r.1 p.builders;
    readable = p.readable;
  }

  pub put-IsStable :
      (b : BuildkitBuilder) (key : Key) (P : _) (s : W.State) (r : Result (Unit {0}) × W.State)
      → IsPut W R.peek stateful_set key P s r
      → IsStable b s r.1
  put-IsStable b key P s r p = record {
    templates = λ other. p.frame template other (inl λ e. cc);
    stays = Stays-same W R b s r.1 (λ other. p.frame builder other (inl λ e. cc));
    readable = IsReadable-same W R b.meta.namespace s r.1 (p.frame secret _ (inl λ e. cc));
  }

  pub report-IsStable :
      (b : BuildkitBuilder) {A : Type 0} (s : W.State) (r : Result A × W.State)
      → IsReported W R b s r
      → IsStable b s r.1
  report-IsStable b s r p = record {
    templates = λ key. p.others template key (λ e. cc);
    stays = p.stays;
    readable = IsReadable-same W R b.meta.namespace s r.1 (p.others secret _ (λ e. cc));
  }
