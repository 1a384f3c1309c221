-- ===== src/Builder/Run/Keeps.antt =====
-- What the steps of a run of tools/xolis_image_builder.py keep, whether they return or raise.
use xolis.Base.{Bool, true, false, Option, none, some, nat_eq, list_eq}
use xolis.Base.Result.{Result, ok, err, ◌>>=◌}
use xolis.Builder.Run.{Failure, Builder, Raised, Step, need, raise_if}

abbrev pub end_of : Result Raised Builder → Builder
end_of (ok b) = b
end_of (err r) = r.builder

module _ (P : Builder → Type 0) where
  pub Keeps-bind :
      (r : Result Raised Builder) (f : Step)
      → P (end_of r)
      → ((b : Builder) → P b → P (end_of (f b)))
      → P (end_of (r >>= f))
  Keeps-bind (ok b) f h k = k b h
  Keeps-bind (err r) f h k = h

  pub Keeps-after :
      (s : Bool) (failure : Failure) (f : Step) (b : Builder)
      → P b
      → P (end_of (f b))
      → P (end_of (need s failure b >>= f))
  Keeps-after true failure f b h k = k
  Keeps-after false failure f b h k = h

  pub Keeps-need :
      (s : Bool) (failure : Failure) (b : Builder) → P b → P (end_of (need s failure b))
  Keeps-need true failure b h = h
  Keeps-need false failure b h = h

  pub Keeps-raise_if : (o : Option Failure) (b : Builder) → P b → P (end_of (raise_if o b))
  Keeps-raise_if none b h = h
  Keeps-raise_if (some f) b h = h
