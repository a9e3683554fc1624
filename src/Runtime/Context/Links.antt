-- ===== src/Runtime/Context/Links.antt =====
-- What two runtimes say to one another about a run, over a participant link.
use hkp_node.Shared.{
  ℕ, ◌≡◌, refl, String, Bool, true, false, ◌&&◌, Option, none, some, arith, string_eq, truthy,
  or_else, Option-cases, inl, inr,
}
use hkp_node.Shared.Json.{Json, Fields, Number, property?, field?, full_text, is_finite, at_most}
use hkp_node.Runtime.Context.{
  Role, owner, member, Caller, Actor, person, board, mount, local_work, Context, context_from_wire,
  context_from_link, context_to_wire, caller_from_wire, actor_from_wire, actor_of_kind,
  person_from_wire, run_expired, actor_expired, role_from_wire,
}

-- A context as the object that goes over the link: a field that is missing is undefined there.
abbrev pub text_field : Option String → Json
text_field none = Json.undefined
text_field (some s) = Json.str s

abbrev pub role_field : Option Role → Json
role_field none = Json.undefined
role_field (some owner) = Json.str "owner"
role_field (some member) = Json.str "member"

abbrev pub kind_object : String → Json
kind_object kind = Json.obj (Fields.field "kind" (Json.str kind) Fields.end)

unfoldable pub actor_object : Actor → Json
actor_object (person expires_at caller) = Json.obj (
    Fields.field "kind" (Json.str "person") (
      Fields.field "expiresAt" (Json.number expires_at) (
        Fields.field "sub" (Json.str caller.sub) (
          Fields.field "email" (text_field caller.email) (
            Fields.field "name" (text_field caller.name)
              (Fields.field "role" (role_field caller.role) Fields.end))))))
actor_object board = kind_object "board"
actor_object mount = kind_object "mount"
actor_object local_work = kind_object "local"

unfoldable pub context_object : Context → Json
context_object context = Json.obj (
    Fields.field "runId" (Json.str context.run_id) (
      Fields.field "parentRunId" (text_field context.parent_run_id) (
        Fields.field "requestId" (text_field context.request_id)
          (Fields.field "actor" (actor_object context.actor) Fields.end))))

-- A text that is not there, or not empty.
abbrev pub is_full : Option String → Bool
is_full none = true
is_full (some s) = truthy s

-- A person has a name, states nothing empty and has a finite time.
abbrev pub is_stated : Actor → Bool
is_stated (person expires_at caller) =
    truthy caller.sub && is_full caller.email && is_full caller.name && is_finite expires_at
is_stated board = true
is_stated mount = true
is_stated local_work = true

full_text-text_field :
    (text : Option String) → is_full text ≡ true → full_text (some (text_field text)) ≡ text
full_text-text_field none h = refl
full_text-text_field (some s) h = ground (arith, h)

role_from_wire-role_field : (role : Option Role) → role_from_wire (some (role_field role)) ≡ role
role_from_wire-role_field none = refl
role_from_wire-role_field (some owner) = refl
role_from_wire-role_field (some member) = refl

actor_from_wire-actor_object :
    (actor : Actor) → is_stated actor ≡ true → actor_from_wire (actor_object actor) ≡ some actor
unfolding actor_from_wire actor_object actor_of_kind property? field? person_from_wire
    caller_from_wire
actor_from_wire-actor_object (person expires_at caller) h = ground (
  arith,
  h,
  full_text-text_field caller.email,
  full_text-text_field caller.name,
  role_from_wire-role_field caller.role,
)
actor_from_wire-actor_object board h = refl
actor_from_wire-actor_object mount h = refl
actor_from_wire-actor_object local_work h = refl

said_lem :
    (context said : Context)
    → context_to_wire (some context) ≡ some said
    → is_full context.parent_run_id ≡ true
    → said ≡ record context { request_id = none }
unfolding context_to_wire
said_lem context said h parent = elim (Option-cases context.parent_run_id) [
  | inl none_there ↦ ground (arith, h, none_there)
  | inr (p, there) ↦ ground (arith, h, parent, there)
]

linked :
    (drawn : String) (context : Context)
    → truthy context.run_id ≡ true
    → is_full context.parent_run_id ≡ true
    → is_stated context.actor ≡ true
    → context_from_link drawn (context_object context) ≡ some (record context { request_id = none })
unfolding context_from_link context_object context_from_wire property? field?
linked drawn context run parent actor = ground (
  arith,
  run,
  full_text-text_field context.parent_run_id parent,
  actor_from_wire-actor_object context.actor actor,
)

-- A run that one runtime says to another arrives there as it was said: the same run, the same parent
-- and the same actor, with no reply address, whatever id is drawn. The run and its parent must have
-- ids that are not empty, and a person a name, no empty email or name, and a finite time.
pub context_from_link-context_to_wire :
    (drawn : String) (context said : Context)
    → context_to_wire (some context) ≡ some said
    → truthy context.run_id ≡ true
    → is_full context.parent_run_id ≡ true
    → is_stated context.actor ≡ true
    → context_from_link drawn (context_object said) ≡ some (record context { request_id = none })
context_from_link-context_to_wire drawn context said h run parent actor =
    let same = said_lem context said h parent in
    rw same (linked drawn (record context { request_id = none }) run parent actor)

full_text_full : (text : Option Json) (s : String) → full_text text ≡ some s → truthy s ≡ true
full_text_full (some (Json.str t)) s h = ground (arith, h)
full_text_full (some Json.null) s h = cc
full_text_full (some Json.undefined) s h = cc
full_text_full (some (Json.flag b)) s h = cc
full_text_full (some (Json.number n)) s h = cc
full_text_full (some (Json.bytes b)) s h = cc
full_text_full (some (Json.arr items)) s h = cc
full_text_full (some (Json.obj fields)) s h = cc
full_text_full none s h = cc

person_from_wire_expired :
    (wire : Json) (expires : Number) (caller : Caller) (now : ℕ)
    → person_from_wire wire ≡ person expires caller
    → truthy caller.sub ≡ false
    → at_most expires now ≡ true
unfolding person_from_wire caller_from_wire
person_from_wire_expired wire expires caller now h nameless =
    elim (Option-cases (full_text (property? "sub" wire))) [
      | inl none_there ↦ ground (arith, none_there, h)
      | inr (sub, there) ↦
          absurd
            (ground (arith, there, h, nameless, full_text_full (property? "sub" wire) sub there))
    ]

actor_of_kind_expired :
    (kind : Option Json) (wire : Json) (expires : Number) (caller : Caller) (now : ℕ)
    → actor_of_kind kind wire ≡ some (person expires caller)
    → truthy caller.sub ≡ false
    → at_most expires now ≡ true
unfolding actor_of_kind
actor_of_kind_expired none wire expires caller now h nameless = cc
actor_of_kind_expired (some Json.null) wire expires caller now h nameless = cc
actor_of_kind_expired (some Json.undefined) wire expires caller now h nameless = cc
actor_of_kind_expired (some (Json.flag b)) wire expires caller now h nameless = cc
actor_of_kind_expired (some (Json.number n)) wire expires caller now h nameless = cc
actor_of_kind_expired (some (Json.bytes b)) wire expires caller now h nameless = cc
actor_of_kind_expired (some (Json.arr items)) wire expires caller now h nameless = cc
actor_of_kind_expired (some (Json.obj fields)) wire expires caller now h nameless = cc
actor_of_kind_expired (some (Json.str kind)) wire expires caller now h nameless =
    ground (arith, h, nameless, person_from_wire_expired wire expires caller now)

actor_from_wire_expired :
    (value : Json) (expires : Number) (caller : Caller) (now : ℕ)
    → actor_from_wire value ≡ some (person expires caller)
    → truthy caller.sub ≡ false
    → at_most expires now ≡ true
unfolding actor_from_wire
actor_from_wire_expired value expires caller now h nameless =
    ground
      (arith, h, nameless, actor_of_kind_expired (property? "kind" value) value expires caller now)

-- A person whose name a link does not state is never valid: the run has expired at every time.
context_from_link_expired :
    (drawn : String) (value : Json) (context : Context) (expires : Number) (caller : Caller)
    (now : ℕ)
    → context_from_link drawn value ≡ some context
    → context.actor ≡ person expires caller
    → truthy caller.sub ≡ false
    → run_expired (some context) now ≡ true
unfolding context_from_link run_expired actor_expired
context_from_link_expired drawn value context expires caller now h is_person nameless =
    let stated : Json = or_else (property? "actor" value) Json.undefined in
    elim (Option-cases (context_from_wire drawn value)) [
      | inl no_context ↦ absurd (ground (arith, no_context, h))
      | inr (c, there) ↦ elim (Option-cases (actor_from_wire stated)) [
        | inl no_actor ↦ absurd (ground (arith, there, no_actor, h, is_person))
        | inr (actor, found) ↦ rw is_person (
            actor_from_wire_expired stated expires caller now
              (ground (arith, there, found, h, is_person)) nameless)
      ]
    ]
