-- ===== src/Lib.antt =====
-- A verification library of the NestJS API starter.
--
-- The program is an HTTP API on NestJS and Prisma. The parts that carry its own logic, and the
-- files that model them:
--
-- Effects.antt, Prisma.antt: what every service uses. A rejected promise is `err`, an exception is
--   an HTTP exception of NestJS, a known request error of Prisma, or another one. The Prisma client
--   is third-party code: `Prisma.Delegate` is the interface of one table (findFirst, create,
--   updateMany, deleteMany, $transaction) with the laws that its documentation and the schema's
--   unique constraint give. Every call may fail with an error; a call that fails changes nothing.
--   `Prisma.Memory.memory` is a table in memory that has the laws, for the concrete runs.
--
-- Process.antt: code whose statements interleave with those of other requests. A process is a
--   sequence of statements, each of which reads the clock and acts on the shared state. `run` runs
--   one process alone, `schedule` interleaves several, in any order and at any times.
--
-- TokenStorage.antt: src/auth/storage/prisma-token-storage.service.ts, with the interface of
--   src/auth/storage/token-storage.interface.ts and the model RefreshToken of prisma/schema.prisma.
--   create, find_valid, find_revoked, rotate, revoke and revoke_all_for_user are the methods of
--   those names. A date is its number of milliseconds. The two dates that `rotate` reads, one for
--   the comparison and one for the stamp, are two arguments. SHA-256 is a parameter.
--   TokenStorage/Spec.antt is the contract of the interface without a table: an entry for each
--   digest. View.antt reads a table as such entries, and Refinement.antt relates the two.
--   Successor.antt has a rotation in terms of the rows alone.
--
-- Idempotency/Store.antt: src/idempotency/storage/prisma-idempotency-store.service.ts, with
--   src/idempotency/storage/idempotency-store.interface.ts and the model IdempotencyKey. reserve,
--   complete and release are processes: each Prisma call is one statement. Store/Spec.antt is the
--   contract of the interface without a table: a slot for each identity. Store/View.antt reads a
--   table as such slots, and Store/Refinement.antt relates the two.
--
-- Idempotency/Fingerprint.antt, Idempotency/Interceptor.antt:
--   src/idempotency/idempotency.interceptor.ts. The route handler is any process; its state and the
--   table of keys make the world of a request. Json.antt has JSON values and texts, which are lists
--   of UTF-16 code units as JavaScript's strings are; a number stands by its printed text.
--
-- Number.antt, Pagination.antt: src/common/pagination/pagination.helper.ts over the numbers of
--   JavaScript, which are exact here: the results that the bounds allow are whole numbers that a
--   double holds. Double.antt has whole numbers as doubles, with their rounding.
--
-- Problem.antt: src/common/filters/problem-details.filter.ts. What is thrown is an HTTP exception with
--   any status, name and response, a known request error of Prisma, or anything else.
--
-- Directory.antt: the tables of users, roles and permissions with their relations, and the calls of
--   the Prisma client on them as an interface with its documented laws. Roles.antt is
--   src/roles/roles.service.ts and src/roles/permissions.service.ts, Users.antt
--   src/users/users.service.ts, Guards.antt src/common/guards/roles.guard.ts and
--   src/common/guards/permissions.guard.ts.
--
-- Auth.antt: src/auth/auth.service.ts, on the token storage and the users service. bcrypt, the JWT
--   service and SHA-256 are parameters. `clock` gives the readings of the clock in the order of the
--   code, and the random bytes of a new refresh token are the argument `fresh`. Ttl.antt is its
--   parseTtlToMs, on the doubles of Double.antt. A lifetime beyond the last date of JavaScript gives an
--   invalid date, which the Prisma client refuses: here the computation of the expiry fails at once.
--   JwtGuard.antt: src/auth/guards/jwt-auth.guard.ts.
--
-- Api.antt: the controllers (src/users/users.controller.ts, src/auth/auth.controller.ts,
--   src/roles/roles.controller.ts, src/roles/permissions.controller.ts,
--   src/health/health.controller.ts): their handlers, paths and metadata. Api/Handle.antt has the
--   bodies of the handlers, on the two stores of Auth, with src/health/health.service.ts;
--   Api/Serve.antt is a request: the rate limiter, the guard of access tokens, the guards of the
--   class, and the handler, in this order. Nest's reflector is an interface with its documented
--   behaviour (`Api.Serve.Reflector`), and the verdict of the rate limiter an argument. The body, the
--   path parameter and the query come as values of the DTO types. Api/Policy.antt is the access to
--   each route, written down apart from the decorators. Which route a request is for is Express's.
--
-- Names.antt: the patterns of the names of roles and permissions in src/roles/dto/create-role.dto.ts,
--   src/roles/dto/create-permission.dto.ts and prisma/seed.ts.
--
-- Dto.antt: the decorated classes of the bodies, under src/auth/dto, src/users/dto and src/roles/dto:
--   each is the list of its properties with their validators. `Dto.ValidationPipe` is the documented
--   behaviour of class-validator and of the pipe with the options of src/main.ts. The
--   length that MinLength and MaxLength count is a parameter. The handlers of Api.antt take a body that
--   was accepted, as a record.
--
-- Query.antt: the queries of the list routes, src/common/dto/pagination.dto.ts and
--   src/roles/dto/list-query.dto.ts, from the parsed query string to the arguments of the handlers.
--   `Query.QueryPipe` is the documented behaviour of class-transformer and class-validator on them;
--   the conversion of a text to a number is a parameter.
--
-- Seed.antt: prisma/seed.ts. The upserts of the Prisma client are an interface on the Directory with
--   laws (`Seed.Upserts`); Seed/Memory.antt has upserts in memory that keep the laws.
--
-- Config.antt: the CORS origins of src/config/app.config.ts and src/main.ts, and the rate limiter's
--   settings in src/app.module.ts.
--
-- The lookups of two tables under one `Promise.all` are made one after the other, and so are the
-- upserts of the seed. Users, roles and refresh tokens are in stores of their own, so a foreign key
-- from a token to a user is not modelled. A request to the API runs alone in Api/Serve.antt; the
-- interleaving of requests is modelled where code handles it, in the store of idempotency keys.
--
-- Two definitions have a bound: Double.nearest looks for at most 971 bits beyond the 53 of a
-- significand, which is all that a number below 2 ^ 1024 has, and Problem.decimal prints 21 digits,
-- where a status has three. All other recursion is on the structure of its data.
--
-- Not modelled: the schema of the environment, which is zod's; the OpenAPI decorators; the conversion of
-- environment variables to numbers; a null in an optional field of an update; the NestJS modules, logging, the connection of the Prisma client
-- and the rest of the bootstrap, which are glue.

pub mod Prelude
pub mod Effects
pub mod Prisma
pub mod Json
pub mod Process
pub mod TokenStorage
pub mod Idempotency
pub mod Number
pub mod Pagination
pub mod Problem
pub mod Directory
pub mod Roles
pub mod Guards
pub mod Users
pub mod Double
pub mod Ttl
pub mod Auth
pub mod JwtGuard
pub mod Api
pub mod Names
pub mod Seed
pub mod Config
pub mod Dto
pub mod Query
