-- ===== src/Config/TokenSafe.antt =====
-- The refresh of a token (src/auth.rs) and the client that uses it (src/graph.rs).
use onedrive_davfs.Base.{
  ◌≡◌, refl, false, Option, none, some, [], Bytes, bytes_eq, ltb, Bool-cases, inl, inr,
}
use onedrive_davfs.Base.Effect.{fail, Keeps, Keeps->>=, Keeps-lift, Keeps-fail}
use onedrive_davfs.Http.Message.{HttpRequest}
use onedrive_davfs.Http.Send.{Wire, send}
use onedrive_davfs.Graph.Request.{Env, plain}
use onedrive_davfs.Graph.Read
use onedrive_davfs.Graph.Upload
use onedrive_davfs.Graph.Write
use onedrive_davfs.Graph.BearerSafe
use onedrive_davfs.Graph.BearerSafe.{IsSafe, carries_token}
use onedrive_davfs.Graph.BearerStays.{client-Keeps}
use onedrive_davfs.Config.Token
use onedrive_davfs.Config.Token.{TokenEnv, TokenFile, TokenResponse}

-- The client that takes its tokens from `bearer_token`.
abbrev pub authenticated : {W : Type 0} → TokenEnv W → Env W → Env W
authenticated auth env = record env { handle = auth.handle; bearer = Token.bearer_token auth }

module _ {W : Type 0} (auth : TokenEnv W) (env : Env W) (P : W → Type 0)
    (handle_keeps : (m : Wire) → IsSafe m → Keeps P (auth.handle m))
    (write_keeps : (bytes : Bytes) → Keeps P (auth.write_file bytes)) where
  refresh_request-no_token :
      (client_id refresh_token : Bytes)
      → carries_token (Token.refresh_request auth client_id refresh_token).headers ≡ false
  unfolding Token.refresh_request plain carries_token bytes_eq
  refresh_request-no_token client_id refresh_token = refl

  load-Keeps : Keeps P (Token.load auth)
  unfolding Token.load
  load-Keeps = record {
    keep = λ w p.
        (Keeps->>= P _ _ (Keeps-lift P (auth.read_file w))
            (λ bytes. Keeps-lift P (Token.parsed_file auth bytes))).keep
          w p;
  }

  -- A request without a token is safe, whichever way the client gets its tokens.
  plain_send-Keeps :
      (req : HttpRequest) → carries_token req.headers ≡ false → Keeps P (send auth.handle req)
  plain_send-Keeps req h =
      BearerSafe.request-Keeps (record env { handle = auth.handle; bearer = fail [] }) P
        handle_keeps (Keeps-fail P []) req h

  renew-Keeps : (old : Bytes) (r : TokenResponse) → Keeps P (Token.renew auth old r)
  unfolding Token.renew
  renew-Keeps old r = record { keep = λ w p. p }

  refresh-Keeps : (refresh_token : Bytes) → Keeps P (Token.refresh auth refresh_token)
  unfolding Token.refresh
  refresh-Keeps refresh_token = Keeps->>= P _ _ (Keeps-lift P _) (λ client_id.
      Keeps->>= P _ _
        (plain_send-Keeps (Token.refresh_request auth client_id refresh_token)
          (refresh_request-no_token client_id refresh_token))
        (λ response.
          Keeps->>= P _ _ (Keeps-lift P (Token.refresh_reply auth response))
            (λ r. renew-Keeps refresh_token r)))

  save-Keeps : (token : TokenFile) → Keeps P (Token.save auth token)
  unfolding Token.save
  save-Keeps token = Keeps->>= P _ _ (Keeps-lift P _) write_keeps

  bearer_of-Keeps : (token : TokenFile) → Keeps P (Token.bearer_of auth token)
  unfolding Token.bearer_of
  bearer_of-Keeps token = Keeps-lift P _

  renewed-Keeps : (refresh_token : Bytes) → Keeps P (Token.renewed auth refresh_token)
  unfolding Token.renewed
  renewed-Keeps refresh_token =
      Keeps->>= P _ _ (refresh-Keeps refresh_token)
        (λ token. Keeps->>= P _ _ (save-Keeps token) (λ _. bearer_of-Keeps token))

  use_token-Keeps :
      (token : TokenFile) (access : Option Bytes) → Keeps P (Token.use_token auth token access)
  unfolding Token.use_token
  use_token-Keeps token none = renewed-Keeps token.refresh_token
  use_token-Keeps token (some access) = record {
    keep = λ w p. elim (Bool-cases (ltb (auth.now_secs w) token.expires_at)) [
      | inl fresh ↦ rw fresh p
      | inr old ↦ rw old ((renewed-Keeps token.refresh_token).keep w p)
    ];
  }

  bearer_token-Keeps : Keeps P (Token.bearer_token auth)
  unfolding Token.bearer_token
  bearer_token-Keeps =
      Keeps->>= P _ _ load-Keeps (λ token. use_token-Keeps token token.access_token)

  -- With the tokens of src/auth.rs, read from the state directory or fetched from the login server and
  -- saved, no call of the Graph client sends a request with an `authorization` header elsewhere than to
  -- `graph.microsoft.com`, also not the request that refreshes the token: a property of the world that
  -- the requests without such a header, those with one to that host, and the saving of the token file keep
  -- is kept by every call. What a body or a URL holds is not spoken of.
  pub authenticated-Keeps :
      (path to body : Bytes) (w : W)
      → P w
      → P (Read.stat (authenticated auth env) path w).0
        × P (Read.children (authenticated auth env) path w).0
        × P (Read.get_content (authenticated auth env) path w).0
        × P (Upload.put_content (authenticated auth env) path body w).0
        × P (Write.create_folder (authenticated auth env) path to w).0
        × P (Write.delete (authenticated auth env) path w).0
        × P (Write.move_or_rename (authenticated auth env) path to w).0
        × P (Read.delta (authenticated auth env) path w).0
  authenticated-Keeps path to body w h =
      client-Keeps (authenticated auth env) P handle_keeps bearer_token-Keeps path to body w h
