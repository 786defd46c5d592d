-- ===== src/Token/Access.antt =====
-- internal/token/manager.go: the client_credentials grant, sliding expiry, DPoP binding, RFC 7009
-- and the statistics.
use oauth4os.Common.{
  String, ◌≡◌, ◌⊎◌, refl, inl, inr, true, none, some, List, [], ◌∷◌, arith, eq_iff, eq_refl,
  contains, contains-subset, Option-cases,
}
use oauth4os.Common.Dict
use oauth4os.Common.Dict.{Dict, size, map_option, get-put, get-adjust, get-adjust_all}
use oauth4os.Common.Text.{join}
use oauth4os.Token.State.{Token, Client, Manager, Draw, Form, granted, TokenBody}
use oauth4os.Token.Clients.{authenticate_client, validate_scopes, allows, credentials}
use oauth4os.Token.Grant.{
  minted, store_token, create_token_with_family, create_token, requested_scopes, bad_client,
  bad_scope, handle_client_credentials,
}
use oauth4os.Token.Maintain.{is_valid}
use oauth4os.Token.Gaps.{stored_valid}

authenticated :
    (m : Manager) (c secret : String)
    → authenticate_client m c secret ≡ none
    → (client : Client) × (Dict.get m.clients c ≡ some client) × (client.secret ≡ secret)
unfolding authenticate_client
authenticated m c secret e = elim (Option-cases (Dict.get m.clients c)) [
  | inl lost ↦ absurd (ground arith)
  | inr (client, there) ↦ (client, there, ground (arith, eq_iff client.secret secret))
]

-- The scopes asked for are among the registered ones, or the client is not restricted.
abbrev pub Within : List String → List String → Type 0
Within scopes registered =
    (registered ≡ []) ⊎ ((s : String) → contains scopes s ≡ true → contains registered s ≡ true)

Within-of_allows :
    (registered scopes : List String) → allows registered scopes ≡ true → Within scopes registered
Within-of_allows [] scopes h = inl refl
Within-of_allows (r ∷ rs) scopes h = inr (λ s k. contains-subset scopes (r ∷ rs) s h k)

validated :
    (m : Manager) (c : String) (scopes : List String) (client : Client)
    → Dict.get m.clients c ≡ some client
    → validate_scopes m c scopes ≡ none
    → Within scopes client.scopes
unfolding validate_scopes
validated m c scopes client there e = Within-of_allows client.scopes scopes (ground arith)

-- What a client gets from the client_credentials grant.
pub record Issued (m : Manager) (f : Form) (d : Draw) (n : Manager) (b : TokenBody) : Type 0 where
  pub client : Client
  pub registered : Dict.get m.clients (credentials f).0 ≡ some client
  pub secret : client.secret ≡ (credentials f).1
  pub tok : Token
  pub stored : Dict.get n.tokens b.access_token ≡ some tok
  pub owner : tok.client_id ≡ (credentials f).0
  pub asked : tok.scopes ≡ requested_scopes m (credentials f).0 f.scope
  pub within : Within tok.scopes client.scopes
  pub valid : is_valid n d.now b.access_token ≡ true
  pub refreshes : Dict.get n.refresh b.refresh_token ≡ some b.access_token

-- The two ends of the grant: a refusal that changes nothing, or an issued token.
abbrev pub Outcome : Manager → Form → Draw → Type 0
Outcome m f d =
    let (n, reply) = handle_client_credentials m f d in
    ((n ≡ m) × ((reply ≡ bad_client) ⊎ (reply ≡ bad_scope)))
    ⊎ ((b : TokenBody) × (reply ≡ granted b) × Issued m f d n b)

-- The client_credentials grant either refuses and changes nothing, or it issues a valid token for
-- the scopes asked for, to a client that is registered with the secret given and for those scopes
-- (or for none in particular).
pub client_credentials-Outcome : (m : Manager) (f : Form) (d : Draw) → Outcome m f d
unfolding handle_client_credentials create_token create_token_with_family
client_credentials-Outcome m f d =
    let c = (credentials f).0 in
    let scopes = requested_scopes m c f.scope in
    elim (Option-cases (authenticate_client m c (credentials f).1)) [
      | inr (e, bad) ↦ inl (rw (bad, handle_client_credentials) (refl, inl refl))
      | inl good ↦ elim (Option-cases (validate_scopes m c scopes)) [
        | inr (e, bad) ↦ inl (rw (good, bad, handle_client_credentials) (refl, inr refl))
        | inl fine ↦
            let (client, there, same) = authenticated m c (credentials f).1 good in
            let tok : Token = minted m d c scopes 0 in
            inr (
              record {
                access_token = tok.id;
                token_type = "Bearer";
                expires_in = 3600;
                refresh_token = tok.refresh_token;
                scope = join scopes " ";
              },
              rw (good, fine, handle_client_credentials),
              rw (good, fine, handle_client_credentials)
                  (record {
                    client = client;
                    registered = there;
                    secret = same;
                    tok = tok;
                    stored = unfold store_token in simp (get-put, eq_refl);
                    owner = refl;
                    asked = refl;
                    within = validated m c scopes client there fine;
                    valid = stored_valid m tok d.now refl (omega arith);
                    refreshes = unfold store_token in simp (get-put, eq_refl);
                  }),
            )
      ]
    ]
