-- ===== src/Lib.antt =====
-- A model of the Drasl authentication server (yggdrasil-authentication): an implementation of the
-- authentication API of Minecraft for game launchers and game servers, with user accounts in a
-- database, skins and capes in files, and other API servers to fall back on.
--
-- The program's parts, and the modules of this library that model them:
--   util.go                 Util (membership, pointers, line wrapping), Random (random texts),
--                           Util.Mutex (the locks of keys, as steps of goroutines)
--   model.go                Types.Tables (the tables User, Client and Invite, token claims), Model.Ids
--                           (UUIDs and ids), Model.Names (validation, transient users, URLs),
--                           Model.Language, Model.Offline (offline UUIDs), Model.Tokens (access tokens)
--   auth.go                 Auth (authenticate, refresh, validate, signout, invalidate), with the
--                           theorems in Auth.Clients, .Login, .Session, .Revocation, .Invalidation
--   session.go              Session (join, hasJoined, profile); Session.Join, .Vouch,
--                           .Elsewhere, .Passes
--   account.go              Account (player names to UUIDs); Account.Lookup, .Batch
--   services.go             Services (bearer authentication, profiles, skins, capes and names);
--                           Services.Bearer, .Names; Certificates (key pairs for signed chat)
--   front.go                Front (browser sessions, deletion of users, invites), with the theorems in
--                           Front.Login; Front.Admin (the admin's changes of users); Front.Register
--                           (registration, the challenge skin's page); Front.Update (changes of a
--                           profile), Front.Profile (the page of it); Front.Pages (the pages that read),
--                           Front.Messages; Challenge (the skin challenge)
--   db.go                   Migration; Transaction (transactions of GORM, for Front too)
--   common.go               Fallback (CachedGet, loops over fallback servers), Textures (skins and
--                           capes of users), Profile (textures of profiles), Users (locking, invites),
--                           Errors (paths and errors)
--   config.go               Types.Settings (the records), Setup (CleanConfig, DefaultConfig), Program
--                           (the files of the configuration and of the key)
--   main.go                 Action (App and the state), Errors (HandleError), Keys (the collection of
--                           public keys, with their publication by services.go), Startup (the default
--                           admins, the first invite, the rate limiter), Program (setup), Routes
--   authlib_injector.go     Injector
--   several                 Answers (the handlers whose answer does not depend on the state)
--
-- A handler is a function of the state, Action.World: the database, the cache of answers, the files,
-- the cookies set on the response, and the count of readings of the clock, of random bytes and of
-- HTTP servers. It goes on with a value, replies, returns an error or panics (Action.Exit); the do
-- blocks follow the statements of the source, with early returns as replies and errors. The result of
-- `c.Bind` is an argument. Function and type names are the source's in the spelling of this library:
-- `AuthAuthenticate` is auth_authenticate, `SessionHasJoined` is session_has_joined. Access tokens
-- connect the parts: Auth signs them and saves the clients whose versions they carry, GetClient
-- checks them for Auth, Session and Services, and Users revokes them; Session, Account and Profile ask
-- fallback servers through Fallback; Profile builds the textures that Session sends.
--
-- What is not in the repository is a parameter: Platform holds the calls of GORM, golang-jwt, hash
-- functions, codecs, net/url, net/http, the ristretto cache, the file system, the clock and
-- randomness, over any types of databases, keys, caches and files. Platform.Laws states documented
-- behaviour of these as records that theorems take as hypotheses; Tests.Memory and Tests.MemoryLaws
-- give a concrete platform that has it, on which the tests run. Platform.Transactions does the same
-- for transactions and Platform.Pixels for images, with the platform of Tests.Store.
--
-- Texts are lists of bytes. Client versions are bit patterns of 64 bits, and adding one wraps;
-- theorems on revocation assume a version below 2 ^ 63 - 1. Times and durations are integers of
-- nanoseconds; a duration in seconds wraps as Go's int64 does. Loops are structural recursion; the
-- one loop that need not end, that of `Wrap` at width zero, has fuel for a round per byte and one.
--
-- Not modelled: JSON and HTTP encoding, the templates, which get the data of the answer, echo's matching
-- of paths to routes, its rewriting of paths and the order of its middleware, logging, the locks on
-- files in the handlers (each handler runs alone), and the command line.
pub mod Base
pub mod Util
pub mod Types
pub mod Platform
pub mod Action
pub mod Model
pub mod Random
pub mod Transaction
pub mod Migration
pub mod Fallback
pub mod Account
pub mod Textures
pub mod Profile
pub mod Setup
pub mod Errors
pub mod Users
pub mod Injector
pub mod Auth
pub mod Session
pub mod Services
pub mod Keys
pub mod Startup
pub mod Program
pub mod Answers
pub mod Routes
pub mod Certificates
pub mod Challenge
pub mod Front
mod Tests
