-- ===== src/Registration/Access.antt =====
-- internal/registration/handler.go: which clients can authenticate, and with which scopes.
use oauth4os.Common.{
  ℕ, String, ◌≡◌, ◌⊎◌, refl, sym, ap, inl, inr, true, false, Option, none, some, List, [], ◌∷◌,
  ◌==◌, eq_refl, Bool-cases, Option-cases, contains, subset, if◌then◌else◌,
}
use oauth4os.Common.Dict
use oauth4os.Common.Dict.{Dict, get-put, get-adjust, get-remove}
use oauth4os.Token.State.{Client, Manager}
use oauth4os.Token.Clients.{register_client, authenticate_client, invalid_client}
use oauth4os.Registration.Handler.{
  Request, Response, Handler, created, deleted, register, rotate_secret, update, updated, delete,
  split_scope, first_refused, response_of,
}

-- The client that the token manager knows under the id.
abbrev pub known : Handler → String → Option Client
known h id = Dict.get h.manager.clients id

register_client-known :
    (m : Manager) (id secret : String) (scopes uris : List String)
    → Dict.get (register_client m id secret scopes uris).clients id
      ≡ some (record { id = id; secret = secret; scopes = scopes; redirect_uris = uris })
unfolding register_client
register_client-known m id secret scopes uris = rw get-put (rw (eq_refl id) refl)

-- A client that is known under a secret can authenticate with it.
authenticate-known :
    (m : Manager) (id : String) (c : Client)
    → Dict.get m.clients id ≡ some c
    → authenticate_client m id c.secret ≡ none
unfolding authenticate_client
authenticate-known m id c there = rw (there, authenticate_client) (rw (eq_refl c.secret) refl)

first_refused-subset :
    (a : String) (allowed scopes : List String)
    → first_refused (a ∷ allowed) scopes ≡ none
    → subset scopes (a ∷ allowed) ≡ true
unfolding first_refused
first_refused-subset a allowed [] h = refl
first_refused-subset a allowed (s ∷ scopes) h = elim (Bool-cases (contains (a ∷ allowed) s)) [
  | inl fine ↦ rw fine (first_refused-subset a allowed scopes (rw fine at h))
  | inr bad ↦ absurd (cc (rw bad at h))
]

-- A client that has registered can authenticate with the id and the secret of the answer, and the
-- token manager knows it with the scopes it asked for, which are all allowed where any are listed.
pub register-Usable :
    (h : Handler) (req : Request) (id secret : String) (now : ℕ) (resp : Response)
    → (register h (some req) id secret now).1 ≡ created resp
    → let h' = (register h (some req) id secret now).0 in
      (authenticate_client h'.manager resp.client_id resp.client_secret ≡ none)
      × (known h' resp.client_id
          ≡ some (record {
            id = resp.client_id;
            secret = resp.client_secret;
            scopes = split_scope req.scope;
            redirect_uris = resp.redirect_uris;
          }))
      × ((h.allowed_scopes ≡ []) ⊎ (subset (split_scope req.scope) h.allowed_scopes ≡ true))
unfolding register
register-Usable h req id secret now resp e = elim (Bool-cases (req.client_name == "")) [
  | inl nameless ↦ absurd (cc (rw (nameless, register) at e))
  | inr named ↦ elim (Option-cases (first_refused h.allowed_scopes (split_scope req.scope))) [
    | inr (s, bad) ↦ absurd (cc (rw (bad, register) at (rw (named, register) at e)))
    | inl fine ↦
        let same : response_of req id secret now ≡ resp =
          created_inj _ resp (rw (fine, register) at (rw (named, register) at e)) in
        let there = register_client-known h.manager _ secret (split_scope req.scope) _ in
        rw (sym same) (
          rw (named, register)
            (rw (fine, register)
              (authenticate-known _ _ _ there, there, allowed h.allowed_scopes fine)))
  ]
]
  where
    created_inj : (a b : Response) → created a ≡ created b → a ≡ b
    created_inj a b p = cc

    allowed :
        (scopes : List String)
        → first_refused scopes (split_scope req.scope) ≡ none
        → (scopes ≡ []) ⊎ (subset (split_scope req.scope) scopes ≡ true)
    allowed [] f = inl refl
    allowed (a ∷ rest) f = inr (first_refused-subset a rest (split_scope req.scope) f)

-- After a rotation exactly the new secret authenticates the client.
pub rotate_secret-exact :
    (h : Handler) (id new_secret secret : String) (c : Response)
    → Dict.get h.clients id ≡ some c
    → authenticate_client (rotate_secret h id new_secret).0.manager id secret
      ≡ (if new_secret == secret then none else some invalid_client)
unfolding rotate_secret authenticate_client
rotate_secret-exact h id new_secret secret c there =
    rw (there, rotate_secret)
      (rw
        (
          register_client-known h.manager id new_secret (split_scope c.scope) c.redirect_uris,
          authenticate_client,
        )
        refl)

-- An update to any scopes, also such as are not allowed, and a rotation give the client these scopes
-- at the token manager.
pub update-rotate_secret :
    (h : Handler) (id new_secret : String) (c : Response) (req : Request)
    → Dict.get h.clients id ≡ some c
    → (req.scope == "") ≡ false
    → (client : Client) × (known (rotate_secret (update h id (some req)).0 id new_secret).0 id
        ≡ some client)
      × (client.scopes ≡ split_scope req.scope)
      × (client.secret ≡ new_secret)
unfolding rotate_secret update
update-rotate_secret h id new_secret c req there asks =
    let now_there : Dict.get (Dict.adjust h.clients id (updated req)) id ≡ some (updated req c) =
      rw get-adjust (rw (eq_refl id) (rw there refl)) in
    let set : (updated req c).scope ≡ req.scope = rw asks refl in
    (
      record {
        id = id;
        secret = new_secret;
        scopes = split_scope (updated req c).scope;
        redirect_uris = (updated req c).redirect_uris;
      },
      rw (there, update)
          (rw (now_there, rotate_secret)
            (register_client-known h.manager id new_secret (split_scope (updated req c).scope)
              (updated req c).redirect_uris)),
      ap split_scope set,
      refl,
    )

-- A client that was deleted is not found any more, and authenticates with the secret it had as before.
pub delete-authenticate_client :
    (h : Handler) (id secret : String) (c : Response)
    → Dict.get h.clients id ≡ some c
    → ((delete h id).1 ≡ deleted)
      × (Dict.get (delete h id).0.clients id ≡ none)
      × (authenticate_client (delete h id).0.manager id secret
          ≡ authenticate_client h.manager id secret)
unfolding delete
delete-authenticate_client h id secret c there = (
  rw (there, delete) refl,
  rw (there, delete) (rw get-remove (rw (eq_refl id) refl)),
  rw (there, delete) refl,
)
