-- ===== src/Access/Projection/Secrecy.antt =====
-- What the owner's copy keeps to itself leaves no trace in the projection.
use one_ai.Prelude.{
  ℕ, Uuid, ◌≡◌, refl, ap, String, Bool, false, not, Option, List, [], ◌∷◌, ◌++◌, keep_if, str_eq,
  if◌then◌else◌,
}
use one_ai.Access.Email.{HeaderValue, EmailMessage, EmailRecipient}
use one_ai.Access.Projection.{recipient_visible_headers, is_one_of, project_email_for_non_owner}

keep_if-hidden {ℓ} :
    {A : Type ℓ} (p : A → Bool) (xs ys : List A) (x : A)
    → p x ≡ false
    → keep_if p (xs ++ x ∷ ys) ≡ keep_if p (xs ++ ys)
keep_if-hidden p [] ys x h = rw h refl
keep_if-hidden p (z ∷ xs) ys x h = ap (λ l. if p z then z ∷ l else l) (keep_if-hidden p xs ys x h)

-- A recipient row of kind bcc, wherever it stands, a header that is not among the visible ones,
-- the ids of the message, its connection and its container, its direction and its size make no
-- difference to what another than the owner is served.
pub project_email_for_non_owner_hides :
    (message : EmailMessage) (before after : List EmailRecipient) (blind : EmailRecipient)
    (headers_before headers_after : List (String × HeaderValue)) (name : String)
    (value : HeaderValue) (connection_id id : Uuid) (container_id : Option Uuid)
    (direction : Option String) (size_bytes : Option ℕ)
    → blind.kind ≡ "bcc"
    → is_one_of name recipient_visible_headers ≡ false
    → project_email_for_non_owner
        (record message {
          id = id;
          connection_id = connection_id;
          container_id = container_id;
          direction = direction;
          size_bytes = size_bytes;
          headers = headers_before ++ (name, value) ∷ headers_after;
        })
        (before ++ blind ∷ after)
      ≡ project_email_for_non_owner
          (record message { headers = headers_before ++ headers_after })
          (before ++ after)
unfolding project_email_for_non_owner
project_email_for_non_owner_hides message before after blind hb ha name value c i k d n is_bcc
      unseen =
    let rows =
      keep_if-hidden (λ r. not (str_eq r.kind "bcc")) before after blind (rw is_bcc refl) in
    let lines =
      keep_if-hidden (λ h. is_one_of h.0 recipient_visible_headers) hb ha (name, value) unseen in
    rw (rows, lines) refl
