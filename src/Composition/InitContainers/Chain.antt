-- ===== src/Composition/InitContainers/Chain.antt =====
-- The order in which the init containers of a service are chained.
use nix_compose.Prelude.{
  String, List, [], ◌∷◌, ◌++◌, ◌≡◌, refl, ap, some, false, arith, contains, IsUnique, eq_iff,
}
use nix_compose.Prelude.Dict.{Dict, lookup, insert, lookup-insert}
use nix_compose.Eval.{Service, DependsOnEntry, InitContainer}
use nix_compose.Composition.InitContainers.{
  init_service_name, insert_all, after_init, init_service, init_loop, synthesize_for_service,
}

-- The names of the services for init containers.
abbrev pub init_names : String → List InitContainer → List String
init_names name [] = []
init_names name (ic ∷ rest) = init_service_name name ic.name ∷ init_names name rest

-- A service that the loop does not name stays.
lookup-init_loop :
    (j name : String) (deps : Dict DependsOnEntry) (prev : String) (inits : List InitContainer)
    (services : Dict Service)
    → contains (init_names name inits) j ≡ false
    → lookup j (init_loop name deps prev inits services).0 ≡ lookup j services
unfolding init_loop
lookup-init_loop j name deps prev [] services free = refl
lookup-init_loop j name deps prev (ic ∷ rest) services free =
    let n = init_service_name name ic.name in
    ground (
      arith,
      free,
      lookup-insert n j (init_service ic deps) services,
      lookup-init_loop j name (after_init n) n rest (insert n (init_service ic deps) services),
    )

init_loop_first :
    (name : String) (deps : Dict DependsOnEntry) (prev : String) (ic : InitContainer)
    (rest : List InitContainer) (services : Dict Service)
    → contains (init_names name rest) (init_service_name name ic.name) ≡ false
    → lookup (init_service_name name ic.name) (init_loop name deps prev (ic ∷ rest) services).0
      ≡ some (init_service ic deps)
unfolding init_loop
init_loop_first name deps prev ic rest services free =
    let n = init_service_name name ic.name in
    ground (
      arith,
      free,
      eq_iff n n,
      lookup-insert n n (init_service ic deps) services,
      lookup-init_loop n name (after_init n) n rest (insert n (init_service ic deps) services),
    )

init_loop_next :
    (name : String) (deps : Dict DependsOnEntry) (prev : String) (before : List InitContainer)
    (ic next : InitContainer) (after : List InitContainer) (services : Dict Service)
    → IsUnique (init_names name (before ++ ic ∷ next ∷ after))
    → lookup
        (init_service_name name next.name)
        (init_loop name deps prev (before ++ ic ∷ next ∷ after) services).0
      ≡ some (init_service next (after_init (init_service_name name ic.name)))
unfolding init_loop
init_loop_next name deps prev [] ic next after services u =
    let n = init_service_name name ic.name in
    init_loop_first name (after_init n) n next after (insert n (init_service ic deps) services)
      u.1.0
init_loop_next name deps prev (first ∷ before) ic next after services u =
    let n = init_service_name name first.name in
    init_loop_next name (after_init n) n before ic next after
      (insert n (init_service first deps) services) u.1

init_loop_last :
    (name : String) (deps : Dict DependsOnEntry) (prev : String) (before : List InitContainer)
    (ic : InitContainer) (services : Dict Service)
    → (init_loop name deps prev (before ++ ic ∷ []) services).1 ≡ init_service_name name ic.name
unfolding init_loop
init_loop_last name deps prev [] ic services = refl
init_loop_last name deps prev (first ∷ before) ic services =
    let n = init_service_name name first.name in
    init_loop_last name (after_init n) n before ic (insert n (init_service first deps) services)

-- Where no two init containers of a service have one name, each but the first depends on the
-- completion of the one before it.
pub synthesize_chain :
    (name : String) (svc : Service) (before : List InitContainer) (ic next : InitContainer)
    (after : List InitContainer)
    → IsUnique (init_names name (before ++ ic ∷ next ∷ after))
    → lookup
        (init_service_name name next.name)
        (synthesize_for_service name svc (before ++ ic ∷ next ∷ after)).0
      ≡ some (init_service next (after_init (init_service_name name ic.name)))
unfolding synthesize_for_service
synthesize_chain name svc before ic next after u =
    init_loop_next name (insert_all svc.depends_on.entries []) "" before ic next after [] u

-- The first takes over what the service depends on.
pub synthesize_first :
    (name : String) (svc : Service) (ic : InitContainer) (rest : List InitContainer)
    → IsUnique (init_names name (ic ∷ rest))
    → lookup (init_service_name name ic.name) (synthesize_for_service name svc (ic ∷ rest)).0
      ≡ some (init_service ic (insert_all svc.depends_on.entries []))
unfolding synthesize_for_service
synthesize_first name svc ic rest u =
    init_loop_first name (insert_all svc.depends_on.entries []) "" ic rest [] u.0

-- The service itself depends on the completion of its last init container.
pub synthesize_last :
    (name : String) (svc : Service) (before : List InitContainer) (ic : InitContainer)
    → (synthesize_for_service name svc (before ++ ic ∷ [])).1
      ≡ after_init (init_service_name name ic.name)
unfolding synthesize_for_service
synthesize_last name svc before ic =
    ap after_init (init_loop_last name (insert_all svc.depends_on.entries []) "" before ic [])
