-- ===== src/Builtins/Stubs.antt =====
-- src/builtins.c: the built-ins that do nothing but print, and give a constant.
use sakura_slemu.Base.{List, [], ◌∷◌, Str, codes, pos}
use sakura_slemu.Double.{Double}
use sakura_slemu.Value.{
  SValue, void, integer, float, string, key, vector, rotation, list, nil, null_key, f_zero, f_one,
}

module _ {F : Type 0} (D : Double F) where
  -- From llAddToLandBanList to llDetectedTouchBinormal.
  unfoldable pub stubs_1 : List (Str × SValue F)
  stubs_1 =
      (codes "llAddToLandBanList", void)
      ∷ (codes "llAddToLandPassList", void)
      ∷ (codes "llAgentInExperience", integer (pos 0))
      ∷ (codes "llAngleBetween", float (f_zero D))
      ∷ (codes "llApplyImpulse", void)
      ∷ (codes "llApplyRotationalImpulse", void)
      ∷ (codes "llAttachToAvatar", void)
      ∷ (codes "llAttachToAvatarTemp", void)
      ∷ (codes "llAvatarOnLinkSitTarget", key null_key)
      ∷ (codes "llAvatarOnSitTarget", key null_key)
      ∷ (codes "llAxes2Rot", rotation (f_zero D) (f_zero D) (f_zero D) (f_one D))
      ∷ (codes "llAxisAngle2Rot", rotation (f_zero D) (f_zero D) (f_zero D) (f_one D))
      ∷ (codes "llBreakAllLinks", void)
      ∷ (codes "llBreakLink", void)
      ∷ (codes "llCastRay", list nil)
      ∷ (codes "llCharacterUpdate", void)
      ∷ (codes "llClearCameraParams", void)
      ∷ (codes "llClearLinkMedia", integer (pos 0))
      ∷ (codes "llClearPrimMedia", integer (pos 0))
      ∷ (codes "llCloseRemoteDataChannel", void)
      ∷ (codes "llCloud", float (f_zero D))
      ∷ (codes "llCollisionFilter", void)
      ∷ (codes "llCollisionSound", void)
      ∷ (codes "llCollisionSprite", void)
      ∷ (codes "llComputeHash", string [])
      ∷ (codes "llCreateCharacter", void)
      ∷ (codes "llCreateKeyValue", key null_key)
      ∷ (codes "llCreateLink", void)
      ∷ (codes "llDamageEvent", void)
      ∷ (codes "llDataSizeKeyValue", key null_key)
      ∷ (codes "llDeleteCharacter", void)
      ∷ (codes "llDeleteKeyValue", key null_key)
      ∷ (codes "llDetachFromAvatar", void)
      ∷ (codes "llDetectedGrab", vector (f_zero D) (f_zero D) (f_zero D))
      ∷ (codes "llDetectedGroup", integer (pos 0))
      ∷ (codes "llDetectedRot", rotation (f_zero D) (f_zero D) (f_zero D) (f_one D))
      ∷ (codes "llDetectedTouchBinormal", vector (f_zero D) (f_zero D) (f_zero D))
      ∷ []

  -- From llDetectedTouchFace to llGetForce.
  unfoldable pub stubs_2 : List (Str × SValue F)
  stubs_2 =
      (codes "llDetectedTouchFace", integer (pos 0))
      ∷ (codes "llDetectedTouchNormal", vector (f_zero D) (f_zero D) (f_zero D))
      ∷ (codes "llDetectedTouchPos", vector (f_zero D) (f_zero D) (f_zero D))
      ∷ (codes "llDetectedTouchST", vector (f_zero D) (f_zero D) (f_zero D))
      ∷ (codes "llDetectedTouchUV", vector (f_zero D) (f_zero D) (f_zero D))
      ∷ (codes "llDetectedVel", vector (f_zero D) (f_zero D) (f_zero D))
      ∷ (codes "llEmail", void)
      ∷ (codes "llEuler2Rot", rotation (f_zero D) (f_zero D) (f_zero D) (f_one D))
      ∷ (codes "llEvade", void)
      ∷ (codes "llExecCharacterCmd", void)
      ∷ (codes "llFleeFrom", void)
      ∷ (codes "llForceMouselook", void)
      ∷ (codes "llGenerateKey", key null_key)
      ∷ (codes "llGetAccel", vector (f_zero D) (f_zero D) (f_zero D))
      ∷ (codes "llGetAgentInfo", integer (pos 0))
      ∷ (codes "llGetAgentLanguage", string [])
      ∷ (codes "llGetAgentList", list nil)
      ∷ (codes "llGetAgentSize", vector (f_zero D) (f_zero D) (f_zero D))
      ∷ (codes "llGetAlpha", float (f_zero D))
      ∷ (codes "llGetAndResetTime", float (f_zero D))
      ∷ (codes "llGetAnimation", string [])
      ∷ (codes "llGetAnimationList", list nil)
      ∷ (codes "llGetAnimationOverride", string [])
      ∷ (codes "llGetAttachedList", list nil)
      ∷ (codes "llGetAttachedListFiltered", list nil)
      ∷ (codes "llGetBoundingBox", list nil)
      ∷ (codes "llGetCameraPos", vector (f_zero D) (f_zero D) (f_zero D))
      ∷ (codes "llGetCameraRot", rotation (f_zero D) (f_zero D) (f_zero D) (f_one D))
      ∷ (codes "llGetCenterOfMass", vector (f_zero D) (f_zero D) (f_zero D))
      ∷ (codes "llGetClosestNavPoint", list nil)
      ∷ (codes "llGetColor", vector (f_zero D) (f_zero D) (f_zero D))
      ∷ (codes "llGetEnergy", float (f_zero D))
      ∷ (codes "llGetEnv", string [])
      ∷ (codes "llGetEventTimer", float (f_zero D))
      ∷ (codes "llGetExperienceDetails", list nil)
      ∷ (codes "llGetExperienceErrorMessage", string [])
      ∷ (codes "llGetForce", vector (f_zero D) (f_zero D) (f_zero D))
      ∷ []

  -- From llGetFreeURLs to llGetPhysicsMaterial.
  unfoldable pub stubs_3 : List (Str × SValue F)
  stubs_3 =
      (codes "llGetFreeURLs", integer (pos 0))
      ∷ (codes "llGetGMTclock", float (f_zero D))
      ∷ (codes "llGetGeometricCenter", vector (f_zero D) (f_zero D) (f_zero D))
      ∷ (codes "llGetHTTPHeader", string [])
      ∷ (codes "llGetHealth", float (f_zero D))
      ∷ (codes "llGetInventoryCreator", key null_key)
      ∷ (codes "llGetInventoryDesc", string [])
      ∷ (codes "llGetInventoryKey", key null_key)
      ∷ (codes "llGetInventoryName", string [])
      ∷ (codes "llGetInventoryNumber", integer (pos 0))
      ∷ (codes "llGetInventoryPermMask", integer (pos 0))
      ∷ (codes "llGetInventoryType", integer (pos 0))
      ∷ (codes "llGetLinkMedia", list nil)
      ∷ (codes "llGetLinkPrimitiveParams", list nil)
      ∷ (codes "llGetLocalPos", vector (f_zero D) (f_zero D) (f_zero D))
      ∷ (codes "llGetLocalRot", rotation (f_zero D) (f_zero D) (f_zero D) (f_one D))
      ∷ (codes "llGetMass", float (f_zero D))
      ∷ (codes "llGetMassMKS", float (f_zero D))
      ∷ (codes "llGetMoonDirection", vector (f_zero D) (f_zero D) (f_zero D))
      ∷ (codes "llGetMoonRotation", rotation (f_zero D) (f_zero D) (f_zero D) (f_one D))
      ∷ (codes "llGetNextEmail", void)
      ∷ (codes "llGetNotecardLine", key null_key)
      ∷ (codes "llGetNotecardLineSync", string [])
      ∷ (codes "llGetNumberOfNotecardLines", key null_key)
      ∷ (codes "llGetObjectDetails", list nil)
      ∷ (codes "llGetObjectPermMask", integer (pos 0))
      ∷ (codes "llGetObjectPrimCount", integer (pos 0))
      ∷ (codes "llGetObjectVelocity", vector (f_zero D) (f_zero D) (f_zero D))
      ∷ (codes "llGetOmega", vector (f_zero D) (f_zero D) (f_zero D))
      ∷ (codes "llGetOwnerKey", key null_key)
      ∷ (codes "llGetParcelDetails", list nil)
      ∷ (codes "llGetParcelFlags", integer (pos 0))
      ∷ (codes "llGetParcelMaxPrims", integer (pos 0))
      ∷ (codes "llGetParcelMusicURL", string [])
      ∷ (codes "llGetParcelPrimCount", integer (pos 0))
      ∷ (codes "llGetParcelPrimOwners", list nil)
      ∷ (codes "llGetPhysicsMaterial", list nil)
      ∷ []

  -- From llGetPrimMediaParams to llLinksetDataReadProtected.
  unfoldable pub stubs_4 : List (Str × SValue F)
  stubs_4 =
      (codes "llGetPrimMediaParams", list nil)
      ∷ (codes "llGetPrimitiveParams", list nil)
      ∷ (codes "llGetRegionAgentCount", integer (pos 0))
      ∷ (codes "llGetRegionCorner", vector (f_zero D) (f_zero D) (f_zero D))
      ∷ (codes "llGetRegionFPS", float (f_zero D))
      ∷ (codes "llGetRegionFlags", integer (pos 0))
      ∷ (codes "llGetRegionTimeDilation", float (f_zero D))
      ∷ (codes "llGetRootPosition", vector (f_zero D) (f_zero D) (f_zero D))
      ∷ (codes "llGetRootRotation", rotation (f_zero D) (f_zero D) (f_zero D) (f_one D))
      ∷ (codes "llGetSPMaxMemory", integer (pos 0))
      ∷ (codes "llGetScriptState", integer (pos 0))
      ∷ (codes "llGetSimStats", float (f_zero D))
      ∷ (codes "llGetSimulatorHostname", string [])
      ∷ (codes "llGetStartParameter", integer (pos 0))
      ∷ (codes "llGetStartString", string [])
      ∷ (codes "llGetStatus", integer (pos 0))
      ∷ (codes "llGetSunDirection", vector (f_zero D) (f_zero D) (f_zero D))
      ∷ (codes "llGetTexture", string [])
      ∷ (codes "llGetTextureOffset", vector (f_zero D) (f_zero D) (f_zero D))
      ∷ (codes "llGetTextureRot", float (f_zero D))
      ∷ (codes "llGetTextureScale", vector (f_zero D) (f_zero D) (f_zero D))
      ∷ (codes "llGetTimeOfDay", float (f_zero D))
      ∷ (codes "llGetTorque", vector (f_zero D) (f_zero D) (f_zero D))
      ∷ (codes "llGetVel", vector (f_zero D) (f_zero D) (f_zero D))
      ∷ (codes "llGiveInventory", void)
      ∷ (codes "llGiveInventoryList", void)
      ∷ (codes "llGround", float (f_zero D))
      ∷ (codes "llGroundNormal", vector (f_zero D) (f_zero D) (f_zero D))
      ∷ (codes "llGroundSlope", vector (f_zero D) (f_zero D) (f_zero D))
      ∷ (codes "llKeysKeyValue", key null_key)
      ∷ (codes "llLinkParticleSystem", void)
      ∷ (codes "llLinkSitTarget", void)
      ∷ (codes "llLinksetDataCountFound", integer (pos 0))
      ∷ (codes "llLinksetDataDeleteKey", integer (pos 0))
      ∷ (codes "llLinksetDataDeleteProtected", integer (pos 0))
      ∷ (codes "llLinksetDataFindKeys", list nil)
      ∷ (codes "llLinksetDataReadProtected", string [])
      ∷ []

  -- From llLinksetDataUsed to llRequestAnimationData.
  unfoldable pub stubs_5 : List (Str × SValue F)
  stubs_5 =
      (codes "llLinksetDataUsed", integer (pos 0))
      ∷ (codes "llLinksetDataWriteProtected", integer (pos 0))
      ∷ (codes "llList2ListStrided", list nil)
      ∷ (codes "llListFindListNext", integer (pos 0))
      ∷ (codes "llListStatistics", float (f_zero D))
      ∷ (codes "llLookAt", void)
      ∷ (codes "llLoopSound", void)
      ∷ (codes "llLoopSoundMaster", void)
      ∷ (codes "llLoopSoundSlave", void)
      ∷ (codes "llManageEstateAccess", integer (pos 0))
      ∷ (codes "llMapDestination", void)
      ∷ (codes "llMax", float (f_zero D))
      ∷ (codes "llMin", float (f_zero D))
      ∷ (codes "llModPow", integer (pos 0))
      ∷ (codes "llMoveToTarget", void)
      ∷ (codes "llName2Key", key null_key)
      ∷ (codes "llNavigateTo", void)
      ∷ (codes "llOffsetTexture", void)
      ∷ (codes "llOpenRemoteDataChannel", void)
      ∷ (codes "llParticleSystem", void)
      ∷ (codes "llPatrolPoints", void)
      ∷ (codes "llPlaySound", void)
      ∷ (codes "llPreloadSound", void)
      ∷ (codes "llPursue", void)
      ∷ (codes "llPushObject", void)
      ∷ (codes "llReadKeyValue", key null_key)
      ∷ (codes "llRefreshPrimURL", void)
      ∷ (codes "llReleaseControls", void)
      ∷ (codes "llRemoteDataReply", void)
      ∷ (codes "llRemoteDataSetRegion", void)
      ∷ (codes "llRemoteLoadScriptPin", void)
      ∷ (codes "llRemoveFromLandBanList", void)
      ∷ (codes "llRemoveFromLandPassList", void)
      ∷ (codes "llRemoveInventory", void)
      ∷ (codes "llRemoveVehicleFlags", void)
      ∷ (codes "llRequestAgentData", key null_key)
      ∷ (codes "llRequestAnimationData", key null_key)
      ∷ []

  -- From llRequestDisplayName to llSetCameraEyeOffset.
  unfoldable pub stubs_6 : List (Str × SValue F)
  stubs_6 =
      (codes "llRequestDisplayName", key null_key)
      ∷ (codes "llRequestExperiencePermissions", void)
      ∷ (codes "llRequestInventoryData", key null_key)
      ∷ (codes "llRequestSimulatorData", key null_key)
      ∷ (codes "llRequestUserKey", key null_key)
      ∷ (codes "llRequestUsername", key null_key)
      ∷ (codes "llResetAnimationOverride", void)
      ∷ (codes "llResetOtherScript", void)
      ∷ (codes "llReturnObjectsByID", integer (pos 0))
      ∷ (codes "llReturnObjectsByOwner", integer (pos 0))
      ∷ (codes "llRezAtRoot", void)
      ∷ (codes "llRezObject", void)
      ∷ (codes "llRot2Angle", float (f_zero D))
      ∷ (codes "llRot2Axis", vector (f_zero D) (f_zero D) (f_zero D))
      ∷ (codes "llRot2Euler", vector (f_zero D) (f_zero D) (f_zero D))
      ∷ (codes "llRot2Fwd", vector (f_zero D) (f_zero D) (f_zero D))
      ∷ (codes "llRot2Left", vector (f_zero D) (f_zero D) (f_zero D))
      ∷ (codes "llRot2Up", vector (f_zero D) (f_zero D) (f_zero D))
      ∷ (codes "llRotBetween", rotation (f_zero D) (f_zero D) (f_zero D) (f_one D))
      ∷ (codes "llRotLookAt", void)
      ∷ (codes "llRotTarget", integer (pos 0))
      ∷ (codes "llRotTargetRemove", void)
      ∷ (codes "llRotateTexture", void)
      ∷ (codes "llScaleTexture", void)
      ∷ (codes "llSendRemoteData", key null_key)
      ∷ (codes "llSensor", void)
      ∷ (codes "llSensorRemove", void)
      ∷ (codes "llSensorRepeat", void)
      ∷ (codes "llSetAlpha", void)
      ∷ (codes "llSetAngularVelocity", void)
      ∷ (codes "llSetAnimationOverride", void)
      ∷ (codes "llSetBuoyancy", void)
      ∷ (codes "llSetCameraAtOffset", void)
      ∷ (codes "llSetCameraEyeOffset", void)
      ∷ []

  -- From llSetCameraParams to llSetSoundQueueing.
  unfoldable pub stubs_7 : List (Str × SValue F)
  stubs_7 =
      (codes "llSetCameraParams", void)
      ∷ (codes "llSetClickAction", void)
      ∷ (codes "llSetCollisionFilter", void)
      ∷ (codes "llSetColor", void)
      ∷ (codes "llSetDamage", void)
      ∷ (codes "llSetEnv", integer (pos 0))
      ∷ (codes "llSetForce", void)
      ∷ (codes "llSetForceAndTorque", void)
      ∷ (codes "llSetHoverHeight", void)
      ∷ (codes "llSetInventoryPermMask", void)
      ∷ (codes "llSetKeyframedMotion", void)
      ∷ (codes "llSetLinkAlpha", void)
      ∷ (codes "llSetLinkCamera", void)
      ∷ (codes "llSetLinkColor", void)
      ∷ (codes "llSetLinkMedia", integer (pos 0))
      ∷ (codes "llSetLinkPhysicsMaterial", void)
      ∷ (codes "llSetLinkPrimitiveParams", void)
      ∷ (codes "llSetLinkPrimitiveParamsFast", void)
      ∷ (codes "llSetLinkRenderMaterial", void)
      ∷ (codes "llSetLinkTexture", void)
      ∷ (codes "llSetLinkTextureAnim", void)
      ∷ (codes "llSetLocalRot", void)
      ∷ (codes "llSetObjectPermMask", void)
      ∷ (codes "llSetParcelDetails", integer (pos 0))
      ∷ (codes "llSetParcelMusicURL", void)
      ∷ (codes "llSetPhysicsMaterial", void)
      ∷ (codes "llSetPrimMediaParams", void)
      ∷ (codes "llSetPrimURL", void)
      ∷ (codes "llSetPrimitiveParams", void)
      ∷ (codes "llSetRegionPos", integer (pos 0))
      ∷ (codes "llSetRemoteScriptAccessPin", void)
      ∷ (codes "llSetScriptState", void)
      ∷ (codes "llSetSitText", void)
      ∷ (codes "llSetSoundQueueing", void)
      ∷ []

  -- From llSetSoundRadius to llWanderWithin.
  unfoldable pub stubs_8 : List (Str × SValue F)
  stubs_8 =
      (codes "llSetSoundRadius", void)
      ∷ (codes "llSetStatus", void)
      ∷ (codes "llSetTexture", void)
      ∷ (codes "llSetTextureAnim", void)
      ∷ (codes "llSetTorque", void)
      ∷ (codes "llSetTouchText", void)
      ∷ (codes "llSetVehicleFlags", void)
      ∷ (codes "llSetVehicleFloatParam", void)
      ∷ (codes "llSetVehicleRotationParam", void)
      ∷ (codes "llSetVehicleType", void)
      ∷ (codes "llSetVehicleVectorParam", void)
      ∷ (codes "llSetVelocity", void)
      ∷ (codes "llSitOnLink", integer (pos 0))
      ∷ (codes "llSitTarget", void)
      ∷ (codes "llSoundPreload", void)
      ∷ (codes "llStartAnimation", void)
      ∷ (codes "llStartObjectAnimation", void)
      ∷ (codes "llStopAnimation", void)
      ∷ (codes "llStopHover", void)
      ∷ (codes "llStopLookAt", void)
      ∷ (codes "llStopMoveToTarget", void)
      ∷ (codes "llStopObjectAnimation", void)
      ∷ (codes "llStopSound", void)
      ∷ (codes "llSunDirection", vector (f_zero D) (f_zero D) (f_zero D))
      ∷ (codes "llTakeControls", void)
      ∷ (codes "llTarget", integer (pos 0))
      ∷ (codes "llTargetOmega", void)
      ∷ (codes "llTargetRemove", void)
      ∷ (codes "llTeleportAgent", void)
      ∷ (codes "llTeleportAgentGlobalCoords", void)
      ∷ (codes "llTeleportAgentHome", void)
      ∷ (codes "llTriggerSound", void)
      ∷ (codes "llTriggerSoundLimited", void)
      ∷ (codes "llUnSit", void)
      ∷ (codes "llUpdateKeyValue", key null_key)
      ∷ (codes "llVolumeDetect", void)
      ∷ (codes "llWanderWithin", void)
      ∷ []

  -- From llWater to llXorBase64StringsCorrect.
  unfoldable pub stubs_9 : List (Str × SValue F)
  stubs_9 =
      (codes "llWater", float (f_zero D))
      ∷ (codes "llWind", vector (f_zero D) (f_zero D) (f_zero D))
      ∷ (codes "llXorBase64", string [])
      ∷ (codes "llXorBase64Strings", string [])
      ∷ (codes "llXorBase64StringsCorrect", string [])
      ∷ []
