-- ===== src/Cli/Run/Outcomes.antt =====
-- What a run of crates/logdrain-cli/src/main.rs ends with: a report on a well-formed miner, or an error.
use logdrain.Common.{[], ◌∷◌, ◌++◌, some, ◌≡◌, ◌⊎◌, Text, codes, ok, err, nat_eq}
use logdrain.Cli.Build.{Arguments, build_miner}
use logdrain.Cli.Fields.{Json}
use logdrain.Cli.Ingest.{Chrono, Ingestor}
use logdrain.Cli.Output.{Writer}
use logdrain.Cli.Run.{
  Host, Framing, ingest_inputs, framing_of, Outcome, feed_all, ingestor_of, report, main,
}
use logdrain.Extern.{Float, RegexEngine}
use logdrain.Miner.Invariant.{IsWellFormed}
use logdrain.Miner.State.{Miner}

module _ {F R J V : Type 0} (host : Host R) (json : Json J) (chrono : Chrono) (w : Writer F V)
    ⦃fl : Float F⦄ ⦃re : RegexEngine R⦄ where
  module _ (cli : Arguments F) where
    -- The run read all of its input and reports on the miner that the records left.
    pub record IsReported (out : Outcome) : Type 0 where
      pub miner : Miner F R
      pub framing : Framing R
      pub ing : Ingestor F R
      pub built : build_miner cli ≡ some (ok miner)
      pub framed : framing_of host re cli ≡ ok framing
      pub read : (ingest_inputs host framing cli.files).1 ≡ ok tt
      pub fed :
          feed_all host json chrono w 0
            (ingest_inputs host framing cli.files).0
            (ingestor_of host json chrono w cli miner)
          ≡ some ing
      pub well : IsWellFormed ing.miner
      pub shown : report host json chrono w cli ing ≡ some out
      pub code : out.code ≡ 0

    -- The first error: of the options; or, if they are right, of the flags that delimit records; or, if
    -- these are right too, of the input.
    abbrev pub IsFirstError : Text → Type 0
    IsFirstError e =
        (build_miner {F = F} {R = R} cli ≡ some (err e))
        ⊎ ((miner : Miner F R) × (build_miner cli ≡ some (ok miner))
            × (framing_of host re cli ≡ err e))
        ⊎ ((miner : Miner F R) × (framing : Framing R) × (build_miner cli ≡ some (ok miner))
            × (framing_of host re cli ≡ ok framing)
            × ((ingest_inputs host framing cli.files).1 ≡ err e))

    -- The run printed nothing but an error.
    pub record IsRefused (out : Outcome) : Type 0 where
      pub error : Text
      pub reason : IsFirstError error
      pub stdout : out.stdout ≡ []
      pub stderr : out.stderr ≡ codes "logdrain: " ++ (error ++ 10 ∷ [])
      pub code : out.code ≡ 2

    abbrev Ended : Type 0
    Ended =
        (out : Outcome) × (main host json chrono w cli ≡ some out)
        × (IsReported out ⊎ IsRefused out)
