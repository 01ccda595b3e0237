-- ===== src/Rpc/Binder.antt =====
-- `HttpBinder` of rpc/http.go: the handlers that are bound to a path and a method, until the router is
-- built of them. A handler here is what the binder's factory makes of it.
use mathlib.Core.Path.{subst}
use developer_gateway.Prelude.{
  ◌≡◌, refl, ap, ◌∙◌, Bool, true, false, Option, none, some, List, [], ◌∷◌, String, same, same_sym,
  same→≡, ◌&&◌, ◌⊎◌, if◌then◌else◌, Bool-cases, inl, inr,
}
use developer_gateway.Backend.Events.{RpcError}
use developer_gateway.Rpc.Http.{Handled, find_handler, find_route}

module _ {B S : Type 0} where
  -- `MethodHandlers.Add`: the entry that is added is found before one that it replaces.
  abbrev add_handler :
      (method : String)
      → (S → Handled B × S)
      → List (String × (S → Handled B × S))
      → List (String × (S → Handled B × S))
  add_handler method h hs = (method, h) ∷ hs

  -- `Bind`
  unfoldable bind :
      (method uri : String)
      → (S → Handled B × S)
      → List (String × List (String × (S → Handled B × S)))
      → List (String × List (String × (S → Handled B × S)))
  bind method uri h [] = (uri, add_handler method h []) ∷ []
  bind method uri h ((path, hs) ∷ mux) =
      let rest = bind method uri h mux in
      if same path uri then (path, add_handler method h hs) ∷ mux else (path, hs) ∷ rest

  -- `Build`: the routes of the router, and the handlers that the binder goes on with.
  abbrev build :
      List (String × List (String × (S → Handled B × S)))
      → List (String × List (String × (S → Handled B × S)))
        × List (String × List (String × (S → Handled B × S)))
  build handlers = (handlers, [])

-- The handler that a router runs for a path and a method.
abbrev handler_at :
    {B S : Type 0}
    → (B ⊎ RpcError → Bool)
    → List (String × List (String × (S → Handled B × S)))
    → (path method : String) → Option (S → Handled B × S)
handler_at encodes mux path method = elim (find_route encodes mux path) [
  | none ↦ none
  | some hs ↦ find_handler encodes hs method
]

module _ {B S : Type 0} (encodes : B ⊎ RpcError → Bool) (at path : String)
    (hs : List (String × (S → Handled B × S)))
    (mux : List (String × List (String × (S → Handled B × S)))) where
  bind_here :
      (method uri : String) (h : S → Handled B × S)
      → same at uri ≡ true
      → bind method uri h ((at, hs) ∷ mux) ≡ (at, add_handler method h hs) ∷ mux
  unfolding bind
  bind_here method uri h e = simp e refl

  bind_later :
      (method uri : String) (h : S → Handled B × S)
      → same at uri ≡ false
      → bind method uri h ((at, hs) ∷ mux) ≡ (at, hs) ∷ bind method uri h mux
  unfolding bind
  bind_later method uri h e = simp e refl

  found_here :
      (name : String)
      → same at path ≡ true
      → handler_at encodes ((at, hs) ∷ mux) path name ≡ find_handler encodes hs name
  unfolding find_route
  found_here name e = simp (handler_at, find_route, e) refl

  found_later :
      (name : String)
      → same at path ≡ false
      → handler_at encodes ((at, hs) ∷ mux) path name ≡ handler_at encodes mux path name
  unfolding find_route
  found_later name e = simp (handler_at, find_route, e) refl

  added_first :
      (method name : String) (h : S → Handled B × S)
      → find_handler encodes (add_handler method h hs) name
        ≡ (if same method name then some h else find_handler encodes hs name)
  unfolding find_handler
  added_first method name h = refl

bind_nil :
    {B S : Type 0} (encodes : B ⊎ RpcError → Bool) (method uri : String) (h : S → Handled B × S)
    (path name : String)
    → handler_at encodes (bind method uri h []) path name
      ≡ (if same uri path && same method name then some h else handler_at encodes [] path name)
unfolding bind find_route find_handler
bind_nil encodes method uri h path name = elim (Bool-cases (same uri path)) [
  | inl e ↦ elim (Bool-cases (same method name)) [
    | inl f ↦ simp (handler_at, find_route, find_handler, e, f) refl
    | inr f ↦ simp (handler_at, find_route, find_handler, e, f) refl
  ]
  | inr e ↦ simp (handler_at, find_route, find_handler, e) refl
]

-- After a handler is bound, a router has it at its path and method, and at any other path or method the
-- handler that was there before.
bind_finds :
    {B S : Type 0} (encodes : B ⊎ RpcError → Bool) (method uri : String) (h : S → Handled B × S)
    (mux : List (String × List (String × (S → Handled B × S)))) (path name : String)
    → handler_at encodes (bind method uri h mux) path name
      ≡ (if same uri path && same method name then some h else handler_at encodes mux path name)
unfolding bind
bind_finds encodes method uri h [] path name = bind_nil encodes method uri h path name
bind_finds encodes method uri h ((at, hs) ∷ mux) path name = elim (Bool-cases (same at uri)) [
  | inl e ↦
      let at_path : same at path ≡ same uri path = ap (λ s. same s path) (same→≡ at uri e) in
      elim (Bool-cases (same uri path)) [
        | inl f ↦
            rw
              (
                bind_here encodes at path hs mux method uri h e,
                found_here encodes at path (add_handler method h hs) mux name (at_path ∙ f),
                found_here encodes at path hs mux name (at_path ∙ f),
                f,
              )
              (added_first encodes at path hs mux method name h)
        | inr f ↦
            rw
              (
                bind_here encodes at path hs mux method uri h e,
                found_later encodes at path (add_handler method h hs) mux name (at_path ∙ f),
                found_later encodes at path hs mux name (at_path ∙ f),
                f,
              )
              refl
      ]
  | inr e ↦ elim (Bool-cases (same at path)) [
    | inl f ↦
        let other : same uri path ≡ false =
          subst (λ s. same uri s ≡ false) (same→≡ at path f) (same_sym at uri e) in
        rw
          (
            bind_later encodes at path hs mux method uri h e,
            found_here encodes at path hs (bind method uri h mux) name f,
            found_here encodes at path hs mux name f,
            other,
          )
          refl
    | inr f ↦
        rw
          (
            bind_later encodes at path hs mux method uri h e,
            found_later encodes at path hs (bind method uri h mux) name f,
            found_later encodes at path hs mux name f,
          )
          (bind_finds encodes method uri h mux path name)
  ]
]
