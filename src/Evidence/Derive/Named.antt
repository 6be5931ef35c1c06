-- ===== src/Evidence/Derive/Named.antt =====
-- A procedure that the derivation names is configured, and no other one matches.
use optimaler_status.Base.{◌≡◌, true, Option, some, String, List, ◌⊎◌}
use optimaler_status.Base.Dict.{Dict, contains, get}
use optimaler_status.Python.Result.{ok}
use optimaler_status.Predicate.Compare.{TextLib}
use optimaler_status.Predicate.Ast.{Context}
use optimaler_status.Contracts.Evidence.{HintStatus}
use optimaler_status.Evidence.Derive.{ProcedureConfig, member, matches}

-- Where an id comes from: the candidates, or a known hint.
abbrev Origin : Option String → HintStatus → List String → String → Type 0
Origin hint status cs id = (member id cs ≡ true) ⊎ ((hint ≡ some id) × (status ≡ HintStatus.known))

abbrev Alone : List String → String → Type 0
Alone cs id = (other : String) → member other cs ≡ true → other ≡ id

module _ (t : TextLib) (context : Context) where
  -- The content of the item has the signals of the procedure of this id.
  pub record Signals (procedures : Dict ProcedureConfig) (id : String) : Type 0 where
    procedure : ProcedureConfig
    configured : get procedures id ≡ some procedure
    matched : matches t context procedure ≡ ok true

  -- The id is that of a configured procedure, and no other procedure's signals hold.
  pub record IsNamed (procedures : Dict ProcedureConfig) (id : String) : Type 0 where
    configured : contains procedures id ≡ true
    alone : (other : String) → Signals procedures other → other ≡ id
